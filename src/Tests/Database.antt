-- ===== src/Tests/Database.antt =====
-- The theorems on the client database and the epochs, at concrete values.
use emulebb_libpcpnatpmp.Base.{
  ℕ, ◌+◌, ◌-◌, ◌/◌, ◌<◌, ◌≡◌, ◌≢◌, ◌↔◌, ◌⊎◌, refl, arith, none, some, pos, ◌+ℤ◌, true, [], ◌∷◌,
}
use emulebb_libpcpnatpmp.Wire.{Nonce}
use emulebb_libpcpnatpmp.Data.{Flow, FlowKeyData, Server, err_success}
use emulebb_libpcpnatpmp.Epoch.{compare_epochs}
use emulebb_libpcpnatpmp.Epoch.Laws.{compare_epochs-forward}
use emulebb_libpcpnatpmp.ClientDb.Key.{compute_flow_key, key_bytes, hash_bytes, hash_round}
use emulebb_libpcpnatpmp.ClientDb.Flows.{
  FlowDb, empty_db, pcp_create_flow, pcp_db_add_flow, pcp_get_flow, pcp_db_rem_flow,
}
use emulebb_libpcpnatpmp.ClientDb.Lookup.{AnswersTo, pcp_get_flow-pcp_db_add_flow}
use emulebb_libpcpnatpmp.ClientDb.Invariant.{
  IsWellFormed, empty_db-IsWellFormed, pcp_create_flow-IsWellFormed, pcp_db_add_flow-IsWellFormed,
}
use emulebb_libpcpnatpmp.ClientDb.Removal.{pcp_db_rem_flow-get}
use emulebb_libpcpnatpmp.ClientDb.Rekey.{
  with_nonce, renonced, Children, no_more, child, pcp_flow_set_nonce, pcp_flow_set_nonce-renonced,
  pcp_flow_set_nonce-lost,
}
use emulebb_libpcpnatpmp.Tests.{map_key, pcp_server, test_msg}

-- A table with one flow, before and after it is linked.
abbrev created : Flow × FlowDb
created = pcp_create_flow pcp_server map_key empty_db

created_IsWellFormed : IsWellFormed created.1
created_IsWellFormed =
    pcp_create_flow-IsWellFormed empty_db empty_db-IsWellFormed pcp_server map_key

created_live : created.1.heap created.0.address ≡ some created.0
unfolding pcp_create_flow
created_live = refl

created_unlinked : created.0.key_bucket ≡ none
unfolding pcp_create_flow
created_unlinked = refl

abbrev one_flow : FlowDb
one_flow = pcp_db_add_flow created.0 created.1

one_flow-IsWellFormed : IsWellFormed one_flow
one_flow-IsWellFormed =
    pcp_db_add_flow-IsWellFormed created.1 created_IsWellFormed created.0 created_live
      created_unlinked

abbrev linked_flow : Flow
linked_flow = record created.0 { key_bucket = some (compute_flow_key created.0.kd) }

linked_live : one_flow.heap linked_flow.address ≡ some linked_flow
unfolding pcp_create_flow pcp_db_add_flow
linked_live = refl

get_add_example : (pcp_get_flow map_key pcp_server one_flow ≡ some created.0.address) ↔ (
    (pcp_get_flow map_key pcp_server created.1 ≡ some created.0.address)
    ⊎ ((pcp_get_flow map_key pcp_server created.1 ≡ none)
        × (created.0.address ≡ created.0.address)
        × AnswersTo created.1 created_IsWellFormed created.0 created_live created_unlinked map_key
            pcp_server))
get_add_example =
    pcp_get_flow-pcp_db_add_flow created.1 created_IsWellFormed created.0 created_live
      created_unlinked map_key pcp_server created.0.address

rem_get_example :
    ((pcp_db_rem_flow linked_flow one_flow).0 ≡ err_success)
    × ((pcp_db_rem_flow linked_flow one_flow).1.flow_cnt ≡ one_flow.flow_cnt - 1)
    × ((kd : FlowKeyData) (s : Server)
        → pcp_get_flow kd s (pcp_db_rem_flow linked_flow one_flow).1 ≢ some linked_flow.address)
    × ((kd : FlowKeyData) (s : Server) (b : ℕ)
        → b ≢ linked_flow.address
        → pcp_get_flow kd s one_flow ≡ some b
        → pcp_get_flow kd s (pcp_db_rem_flow linked_flow one_flow).1 ≡ some b)
rem_get_example =
    pcp_db_rem_flow-get one_flow one_flow-IsWellFormed linked_flow linked_live (λ e. cc)

abbrev new_nonce : Nonce
new_nonce = record { n0 = 1; n1 = 2; n2 = 3 }

linked_alone : Children one_flow.heap (some linked_flow.address) (linked_flow.address ∷ [])
unfolding pcp_create_flow
linked_alone = child linked_live no_more

under_new_nonce :
    (db' : FlowDb) × (pcp_flow_set_nonce (some linked_flow.address) (some new_nonce) one_flow
      ≡ some (0, db'))
    × ((b : ℕ) → db'.heap b ≡ renonced new_nonce (linked_flow.address ∷ []) one_flow.heap b)
    × (db'.flows ≡ one_flow.flows)
unfolding pcp_create_flow pcp_db_add_flow
under_new_nonce =
    pcp_flow_set_nonce-renonced one_flow linked_flow.address new_nonce (linked_flow.address ∷ [])
      linked_alone (omega arith)

other_bucket :
    compute_flow_key (with_nonce new_nonce linked_flow).kd ≢ compute_flow_key created.0.kd
unfolding compute_flow_key hash_bytes hash_round key_bytes pcp_create_flow
other_bucket e = omega (arith, e)

lost_example :
    pcp_get_flow (with_nonce new_nonce linked_flow).kd pcp_server under_new_nonce.0
    ≢ some linked_flow.address
lost_example =
    pcp_flow_set_nonce-lost one_flow linked_flow new_nonce under_new_nonce.0
      (compute_flow_key created.0.kd) one_flow-IsWellFormed linked_live refl other_bucket
      under_new_nonce.1 pcp_server

abbrev known_server : Server
known_server = record pcp_server { epoch = 400; cepoch = pos 20 }

epoch_forward_example :
    ((compare_epochs test_msg known_server).0 ≡ true)
    ↔ ((30 + 2 < 600 - 600 / 16) ⊎ (600 + 2 < 30 - 30 / 16))
unfolding ◌+ℤ◌
epoch_forward_example =
    compare_epochs-forward test_msg known_server (omega arith) 30 refl 600 refl (omega arith)
      (omega arith) (omega arith)

abbrev ahead_server : Server
ahead_server = record pcp_server { epoch = 5000; cepoch = pos 20 }
