-- ===== src/Tests/Notify.antt =====
-- The theorems on incoming notifications: a signal for Alice and two responses of one id.
use h2hc_linker.Base.Maps.{lookup}
use h2hc_linker.Base.{ℕ, ◌≡◌, refl, inl, inr, nat_eq, List, [], ◌∷◌, Option, none, some}
use h2hc_linker.Host.{ok}
use h2hc_linker.Query.{PendingDhtResponses}
use h2hc_linker.Notify.{
  WireMessage, remote_signal_evt, get_res, error_res, Wire, ProxySpaceHandler, Spawned, routes,
  server_msg, recv_notify, run_tasks,
}
use h2hc_linker.Notify.Routed.{answers_of, run_tasks_lem}
use h2hc_linker.Notify.Delivered.{Among, recv_notify_lem}
use h2hc_linker.Tests.Fixtures.{host, proxy, try_send}

abbrev batch : List WireMessage
batch = get_res 7 [] ∷ remote_signal_evt 1 (3 ∷ []) ∷ error_res 7 "late" ∷ []

abbrev msg_id_of : WireMessage → Option ℕ
msg_id_of (get_res id r) = some id
msg_id_of (error_res id e) = some id
msg_id_of _ = none

abbrev pub wire : Wire
wire = record { decode_batch = λ bytes. ok batch; get_msg_id = msg_id_of; from_k2_space = λ s. 5 }

abbrev space : ProxySpaceHandler
space = record { space_id = 50 }

abbrev waiting : PendingDhtResponses
waiting = record { inner = (7, 70) ∷ (8, 80) ∷ [] }

recv_notify_lem_example :
    Among
      (10, server_msg host wire 5 1 (3 ∷ []))
      (run_tasks wire try_send proxy (recv_notify host wire space []) waiting).signals
unfolding server_msg
recv_notify_lem_example =
    (recv_notify_lem host wire try_send proxy space [] waiting 10
        (server_msg host wire 5 1 (3 ∷ []))).1
      batch refl (1, (3 ∷ [], inr (inl refl), (refl, refl, refl)))

abbrev pub tasks : List Spawned
tasks = routes (get_res 7 []) ∷ routes (error_res 7 "late") ∷ []

-- The query 7 gets the first of the two responses, and waits no more.
run_tasks_lem_example :
    let after = run_tasks wire try_send proxy tasks (record { inner = (7, 70) ∷ [] }) in
    (answers_of wire 7 after.answers ≡ (70, get_res 7 []) ∷ [])
    × (lookup 7 after.pending.inner ≡ none)
run_tasks_lem_example = run_tasks_lem wire try_send proxy 7 tasks (record { inner = (7, 70) ∷ [] })
