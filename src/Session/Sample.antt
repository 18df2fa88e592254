-- ===== src/Session/Sample.antt =====
-- A small dialer for a session (state.go), whose state is the list of the connections that are open.
-- A dial opens the connection that is named by their number.
use curator_go.Base.{ℕ, refl, none, some, List, [], ◌∷◌, length, pos}
use curator_go.Handle.{Outside}
use curator_go.Handle.Ownership.{IsLawful, erase}

abbrev pub sample : Outside (List ℕ)
sample = record {
  connection_string = λ s. [];
  start_ensemble = λ s. (none, s);
  close_ensemble = λ s. s;
  dial = λ text s. ((some (length s), some 1, none), length s ∷ s);
  close_conn = λ c s. erase c s;
  watch = λ channel s. s;
  since = λ start s. pos 100;
  now = λ s. 0;
  add_count = λ e s. s;
}

pub sample-IsLawful : IsLawful sample (λ s. s)
sample-IsLawful = record {
  dial_fails = λ text s e failed. absurd cc;
  dial_nil = λ text s fine nil. absurd cc;
  dial_opens = λ text s c fine opened. cc;
  closes = λ c s. refl;
  watches = λ channel s. refl;
  counts = λ e s. refl;
  starts = λ s. refl;
  ends = λ s. refl;
}
