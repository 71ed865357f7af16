-- ===== src/Tests/Quic.antt =====
-- src/flow_plane/quic_flow.rs: concrete flows and identifiers, and the theorems at them.
use new_proxy.Prelude.{
  ℕ, ◌<◌, ◌≡◌, ◌↔◌, refl, none, some, [], ◌∷◌, ok, err, if◌then◌else◌, ◌==◌, ◌&&◌, nat_eq,
}
use new_proxy.HashMap
use new_proxy.Net.{list_eq, list_beq}
use new_proxy.Quic.Hash.{
  Dcid, QuicFlow, QuicFlowError, owner_beq, new_flow, bootstrap_owner, fnv1a, duplicate_dcid,
  queues_in_range,
}
use new_proxy.Quic.Index.{
  ActiveDcidIndex, owner_of, resolve, activate, stage_for_flow, publish_for_flow, publish,
  publish_batch_for_flow, check_batch, activate_all, retire, retire_for_flow, forget_dcid,
  close_flow, remove_dcids,
}
use new_proxy.Quic.Invariant.{IsValid}
use new_proxy.Quic.Publish.{is_own, publish_for_flow-resolve, retire_for_flow-resolve}
use new_proxy.Quic.Batch.{mem_dcid, AreFree, publish_batch-ok_iff, publish_batch-resolve}
use new_proxy.Quic.Close.{of_flow, close_flow-resolve}
use new_proxy.Quic.Reach

program : Unit {0}
unfolding resolve activate stage_for_flow publish_for_flow publish publish_batch_for_flow
    check_batch activate_all retire retire_for_flow forget_dcid close_flow remove_dcids owner_beq
    list_beq HashMap.get HashMap.insert HashMap.remove HashMap.retain new_flow bootstrap_owner fnv1a
program = tt

abbrev known : Dcid
known = 1 ∷ 2 ∷ []

abbrev fresh : Dcid
fresh = 3 ∷ 4 ∷ []

abbrev flow : ℕ → QuicFlow
flow id = record { id = id; flow_worker_id = 2; tunnel_queue_id = 0 }

abbrev first : ActiveDcidIndex
first = (publish_for_flow Reach.empty (1 ∷ 2 ∷ []) (flow 7)).0

abbrev staged : ActiveDcidIndex
staged = (stage_for_flow first (3 ∷ 4 ∷ []) (flow 8)).0

staged-Reach : Reach.Reach staged
staged-Reach = Reach.stage (3 ∷ 4 ∷ []) (flow 8) (Reach.publish (1 ∷ 2 ∷ []) (flow 7) Reach.start)

Reach-dcids_example : IsValid staged
Reach-dcids_example =
    Reach.Reach-dcids
      (Reach.stage (3 ∷ 4 ∷ []) (flow 8) (Reach.publish (1 ∷ 2 ∷ []) (flow 7) Reach.start))

staged-IsValid : IsValid staged
staged-IsValid = Reach.Reach-dcids staged-Reach

resolved : resolve staged (1 ∷ 2 ∷ []) ≡ some (owner_of (flow 7))
unfolding program
resolved = refl

other_flow :
    (publish_for_flow staged (1 ∷ 2 ∷ []) (flow 8)).1 ≡ err (duplicate_dcid (owner_of (flow 7)))
unfolding program
other_flow = refl

closed : (close_flow staged 7).1 ≡ 1
unfolding program
closed = refl

-- The identifier of flow 7 stands last, and nothing is published.
refused :
    (publish_batch_for_flow staged ((9 ∷ []) ∷ (1 ∷ 2 ∷ []) ∷ []) (flow 8)).1
    ≡ err (duplicate_dcid (owner_of (flow 7)))
unfolding program
refused = refl

publish_for_flow-resolve_example :
    ((publish_for_flow staged fresh (flow 8)).1 ≡ ok tt
      → resolve (publish_for_flow staged fresh (flow 8)).0 known
        ≡ (if fresh == known then some (owner_of (flow 8)) else resolve staged known))
    × ((p : QuicFlowError)
        → (publish_for_flow staged fresh (flow 8)).1 ≡ err p
        → resolve (publish_for_flow staged fresh (flow 8)).0 known ≡ resolve staged known)
publish_for_flow-resolve_example = publish_for_flow-resolve staged-IsValid fresh (flow 8) known

retire_for_flow-resolve_example : resolve (retire_for_flow staged known (flow 7)).0 known ≡ (
    if (known == known) && is_own (owner_of (flow 7)) (resolve staged known)
    then none
    else resolve staged known)
retire_for_flow-resolve_example = retire_for_flow-resolve staged-IsValid known (flow 7) known

publish_batch-ok_iff_example :
    ((publish_batch_for_flow staged ((9 ∷ []) ∷ (3 ∷ 4 ∷ []) ∷ []) (flow 8)).1 ≡ ok tt)
    ↔ AreFree staged (owner_of (flow 8)) ((9 ∷ []) ∷ (3 ∷ 4 ∷ []) ∷ [])
publish_batch-ok_iff_example =
    publish_batch-ok_iff staged-IsValid ((9 ∷ []) ∷ (3 ∷ 4 ∷ []) ∷ []) (flow 8)

publish_batch-resolve_example :
    ((publish_batch_for_flow staged ((9 ∷ []) ∷ (3 ∷ 4 ∷ []) ∷ []) (flow 8)).1 ≡ ok tt
      → (e : Dcid)
      → resolve (publish_batch_for_flow staged ((9 ∷ []) ∷ (3 ∷ 4 ∷ []) ∷ []) (flow 8)).0 e ≡ (
          if mem_dcid e ((9 ∷ []) ∷ (3 ∷ 4 ∷ []) ∷ [])
          then some (owner_of (flow 8))
          else resolve staged e))
    × ((p : QuicFlowError)
        → (publish_batch_for_flow staged ((9 ∷ []) ∷ (3 ∷ 4 ∷ []) ∷ []) (flow 8)).1 ≡ err p
        → (publish_batch_for_flow staged ((9 ∷ []) ∷ (3 ∷ 4 ∷ []) ∷ []) (flow 8)).0 ≡ staged)
    × IsValid (publish_batch_for_flow staged ((9 ∷ []) ∷ (3 ∷ 4 ∷ []) ∷ []) (flow 8)).0
publish_batch-resolve_example =
    publish_batch-resolve staged-IsValid ((9 ∷ []) ∷ (3 ∷ 4 ∷ []) ∷ []) (flow 8)

close_flow-resolve_example :
    resolve (close_flow staged 7).0 (3 ∷ 4 ∷ [])
    ≡ (if of_flow 7 (resolve staged (3 ∷ 4 ∷ [])) then none else resolve staged (3 ∷ 4 ∷ []))
close_flow-resolve_example = close_flow-resolve staged-IsValid 7 (3 ∷ 4 ∷ [])

queues_in_range_example :
    ((f : QuicFlow)
      → new_flow 7 2 (1 ∷ 2 ∷ []) 4 ≡ ok f
      → (f.id ≡ 7) × (f.flow_worker_id ≡ 2) × (f.tunnel_queue_id < 4))
    × ((n worker : ℕ) → bootstrap_owner (1 ∷ 2 ∷ []) n ≡ ok worker → worker < n)
queues_in_range_example = queues_in_range 7 2 (1 ∷ 2 ∷ []) 4
