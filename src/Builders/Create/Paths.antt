-- ===== src/Builders/Create/Paths.antt =====
-- The path that a create request (create.go) answers with.
use curator_go.Framework.{Framework}
