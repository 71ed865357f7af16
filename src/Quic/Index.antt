-- ===== src/Quic/Index.antt =====
-- src/flow_plane/quic_flow.rs: `ActiveDcidIndex`, the connection identifiers that are published and
-- those that are staged for a flow that is being set up.
use new_proxy.Prelude.{
  ℕ, not, Option, none, some, List, [], ◌∷◌, if◌then◌else◌, nat_beq, nat_eq, ◌==◌, Result, ok, err,
  length,
}
use new_proxy.HashMap
use new_proxy.HashMap.{HashMap}
use new_proxy.Net.{QuicFlowId, list_eq}
use new_proxy.Quic.Hash.{
  Dcid, is_empty, DcidOwner, owner_eq, QuicFlow, QuicFlowError, empty_dcid, duplicate_dcid,
}

-- `HashSet<Vec<u8>>`
abbrev pub DcidSet : Type 0
DcidSet = HashMap Dcid (Unit {0})

pub record ActiveDcidIndex : Type 0 where
  pub by_dcid : HashMap Dcid DcidOwner
  pub staged_by_dcid : HashMap Dcid DcidOwner
  pub by_flow : HashMap QuicFlowId DcidSet

abbrev pub owner_of : QuicFlow → DcidOwner
owner_of flow = record { flow_worker_id = flow.flow_worker_id; quic_flow_id = flow.id }

abbrev pub or_else : Option DcidOwner → Option DcidOwner → Option DcidOwner
or_else none o = o
or_else (some a) o = some a

-- `resolve`, and the look-up of the methods that stage and publish.
unfoldable pub resolve : ActiveDcidIndex → Dcid → Option DcidOwner
resolve x dcid = or_else (HashMap.get dcid x.by_dcid) (HashMap.get dcid x.staged_by_dcid)

unfoldable pub stage_for_flow :
    ActiveDcidIndex → Dcid → QuicFlow → ActiveDcidIndex × Result QuicFlowError (Unit {0})
stage_for_flow x dcid flow = if is_empty dcid then (x, err empty_dcid) else elim (resolve x dcid) [
  | some existing ↦
      if existing == owner_of flow then (x, ok tt) else (x, err (duplicate_dcid existing))
  | none ↦
      (record x { staged_by_dcid = HashMap.insert dcid (owner_of flow) x.staged_by_dcid }, ok tt)
]

abbrev pub set_or_default : Option DcidSet → DcidSet
set_or_default none = []
set_or_default (some dcids) = dcids

-- `by_dcid.insert(dcid, owner)` and `by_flow.entry(owner.quic_flow_id).or_default().insert(dcid)`
unfoldable pub activate : ActiveDcidIndex → Dcid → DcidOwner → ActiveDcidIndex
activate x dcid owner = record x {
  by_dcid = HashMap.insert dcid owner x.by_dcid;
  by_flow =
      HashMap.insert owner.quic_flow_id
        (HashMap.insert dcid tt (set_or_default (HashMap.get owner.quic_flow_id x.by_flow)))
        x.by_flow;
}

abbrev pub unstage : ActiveDcidIndex → Dcid → ActiveDcidIndex
unstage x dcid = record x { staged_by_dcid = HashMap.remove dcid x.staged_by_dcid }

-- A staged identifier of another owner is taken out and put back.
unfoldable pub publish :
    ActiveDcidIndex → Dcid → DcidOwner → ActiveDcidIndex × Result QuicFlowError (Unit {0})
publish x dcid owner =
    if is_empty dcid then (x, err empty_dcid) else elim (HashMap.get dcid x.by_dcid) [
      | some existing ↦ if existing == owner then (x, ok tt) else (x, err (duplicate_dcid existing))
      | none ↦ elim (HashMap.get dcid x.staged_by_dcid) [
        | none ↦ (activate x dcid owner, ok tt)
        | some existing ↦
            if existing == owner then (activate (unstage x dcid) dcid owner, ok tt) else (
              record x {
                staged_by_dcid =
                    HashMap.insert dcid existing (HashMap.remove dcid x.staged_by_dcid);
              },
              err (duplicate_dcid existing),
            )
      ]
    ]

unfoldable pub publish_for_flow :
    ActiveDcidIndex → Dcid → QuicFlow → ActiveDcidIndex × Result QuicFlowError (Unit {0})
unfolding publish
publish_for_flow x dcid flow = publish x dcid (owner_of flow)

-- The first loop of `publish_batch_for_flow`: the identifiers without repetition, or an error.
unfoldable pub check_batch :
    ActiveDcidIndex → DcidOwner → DcidSet → List Dcid → Result QuicFlowError DcidSet
check_batch x owner unique [] = ok unique
check_batch x owner unique (dcid ∷ dcids) =
    let seen = check_batch x owner unique dcids in
    let fresh = check_batch x owner (HashMap.insert dcid tt unique) dcids in
    if is_empty dcid
    then err empty_dcid
    else if HashMap.contains_key dcid unique
    then seen
    else elim (resolve x dcid) [
      | none ↦ fresh
      | some existing ↦ if existing == owner then fresh else err (duplicate_dcid existing)
    ]

-- The second loop.
unfoldable pub activate_all : ActiveDcidIndex → DcidOwner → DcidSet → ActiveDcidIndex
activate_all x owner [] = x
activate_all x owner ((dcid, _) ∷ dcids) =
    activate_all (activate (unstage x dcid) dcid owner) owner dcids

unfoldable pub publish_batch_for_flow :
    ActiveDcidIndex → List Dcid → QuicFlow → ActiveDcidIndex × Result QuicFlowError (Unit {0})
publish_batch_for_flow x dcids flow = elim (check_batch x (owner_of flow) [] dcids) [
  | err e ↦ (x, err e)
  | ok unique ↦ (activate_all x (owner_of flow) unique, ok tt)
]

-- A flow without identifiers has no entry.
abbrev pub put_set : HashMap QuicFlowId DcidSet → QuicFlowId → DcidSet → HashMap QuicFlowId DcidSet
put_set by_flow flow [] = HashMap.remove flow by_flow
put_set by_flow flow (d ∷ ds) = HashMap.insert flow (d ∷ ds) by_flow

unfoldable pub forget_dcid :
    HashMap QuicFlowId DcidSet → QuicFlowId → Dcid → HashMap QuicFlowId DcidSet
forget_dcid by_flow flow dcid = elim (HashMap.get flow by_flow) [
  | none ↦ by_flow
  | some dcids ↦ put_set by_flow flow (HashMap.remove dcid dcids)
]

-- `by_dcid.remove(dcid).or_else(|| staged_by_dcid.remove(dcid))`: the second map is written only
-- where the first has no entry.
unfoldable pub retire : ActiveDcidIndex → Dcid → ActiveDcidIndex × Option DcidOwner
retire x dcid = elim (HashMap.get dcid x.by_dcid) [
  | some owner ↦ (
    record x {
      by_dcid = HashMap.remove dcid x.by_dcid;
      by_flow = forget_dcid x.by_flow owner.quic_flow_id dcid;
    },
    some owner,
  )
  | none ↦ elim (HashMap.get dcid x.staged_by_dcid) [
    | none ↦ (x, none)
    | some owner ↦ (
      record x {
        staged_by_dcid = HashMap.remove dcid x.staged_by_dcid;
        by_flow = forget_dcid x.by_flow owner.quic_flow_id dcid;
      },
      some owner,
    )
  ]
]

unfoldable pub retire_for_flow :
    ActiveDcidIndex → Dcid → QuicFlow → ActiveDcidIndex × Option DcidOwner
retire_for_flow x dcid flow = elim (resolve x dcid) [
  | none ↦ (x, none)
  | some owner ↦ if owner == owner_of flow then retire x dcid else (x, none)
]

unfoldable pub remove_dcids : HashMap Dcid DcidOwner → DcidSet → HashMap Dcid DcidOwner
remove_dcids m [] = m
remove_dcids m ((dcid, _) ∷ dcids) = remove_dcids (HashMap.remove dcid m) dcids

unfoldable pub close_flow : ActiveDcidIndex → QuicFlowId → ActiveDcidIndex × ℕ
close_flow x flow =
    let dcids = set_or_default (HashMap.get flow x.by_flow) in
    (
      record {
        by_dcid = remove_dcids x.by_dcid dcids;
        staged_by_dcid =
            HashMap.retain (λ _ owner. not (nat_beq owner.quic_flow_id flow)) x.staged_by_dcid;
        by_flow = HashMap.remove flow x.by_flow;
      },
      length dcids,
    )
