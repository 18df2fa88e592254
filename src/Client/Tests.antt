-- ===== src/Client/Tests.antt =====
-- The run of a client (client.go) whose one authorization is refused.
use curator_go.Base.{ℕ, ◌≡◌, ◌≤◌, refl, false, some, List, [], ◌∷◌, length, pos, text}
use curator_go.Errors.{connection_loss}
use curator_go.Session.{new_connection_state}
use curator_go.Session.Sample.{sample, sample-IsLawful}
use curator_go.Client.{
  AuthInfo, Authorizer, authorizing, ZookeeperClient, start_client, close_client,
}
use curator_go.Client.Life.{ClientReach, ClientStep, close_client-closes}

abbrev refusing : Authorizer (List ℕ)
refusing n info s = (some connection_loss, s)

abbrev infos : List AuthInfo
infos = record { scheme = text "digest"; auth = text "a:b" } ∷ []

abbrev new_client : ZookeeperClient
new_client = record {
  started = false;
  state = new_connection_state (authorizing sample refusing infos) (pos 10) (pos 5) [];
}

abbrev begun : ZookeeperClient
begun = (start_client (authorizing sample refusing infos) new_client []).1

close_client-closes_example :
    let s = (start_client (authorizing sample refusing infos) new_client []).2 in
    let (err, c', s') = close_client (authorizing sample refusing infos) begun s in
    (length s ≤ 1) × (s' ≡ []) × (c'.state.is_connected ≡ false)
close_client-closes_example =
    close_client-closes sample (λ s. s) refusing infos sample-IsLawful (λ n info t. refl)
      (ClientReach.next (ClientReach.new (pos 10) (pos 5) [] refl) ClientStep.starts)
