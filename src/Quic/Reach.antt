-- ===== src/Quic/Reach.antt =====
-- src/flow_plane/quic_flow.rs: the indexes that the methods lead to.
use new_proxy.Prelude.{arith, [], List}
use new_proxy.HashMap.Laws.{get-nil}
use new_proxy.Net.{QuicFlowId, list_eq}
use new_proxy.Quic.Hash.{Dcid, DcidOwner, QuicFlow}
use new_proxy.Quic.Index.{
  ActiveDcidIndex, DcidSet, stage_for_flow, publish_for_flow, publish_batch_for_flow, retire,
  retire_for_flow, close_flow,
}
use new_proxy.Quic.Invariant.{IsValid, in_flow-none}
use new_proxy.Quic.Publish.{
  stage_for_flow-IsValid, publish_for_flow-IsValid, retire-IsValid, retire_for_flow-IsValid,
}
use new_proxy.Quic.Batch.{publish_batch-resolve}
use new_proxy.Quic.Close.{close_flow-IsValid}
use new_proxy.Prelude.{nat_eq}

-- `ActiveDcidIndex::default()`
abbrev pub empty : ActiveDcidIndex
empty = record { by_dcid = []; staged_by_dcid = []; by_flow = [] }

pub data Reach : ActiveDcidIndex → Type 0 where
  start : Reach empty
  stage :
      {x : ActiveDcidIndex} (d : Dcid) (flow : QuicFlow)
      → Reach x
      → Reach (stage_for_flow x d flow).0
  publish :
      {x : ActiveDcidIndex} (d : Dcid) (flow : QuicFlow)
      → Reach x
      → Reach (publish_for_flow x d flow).0
  publish_batch :
      {x : ActiveDcidIndex} (ds : List Dcid) (flow : QuicFlow)
      → Reach x
      → Reach (publish_batch_for_flow x ds flow).0
  retire_any : {x : ActiveDcidIndex} (d : Dcid) → Reach x → Reach (retire x d).0
  retire_own :
      {x : ActiveDcidIndex} (d : Dcid) (flow : QuicFlow)
      → Reach x
      → Reach (retire_for_flow x d flow).0
  close : {x : ActiveDcidIndex} (f : QuicFlowId) → Reach x → Reach (close_flow x f).0

empty-IsValid : IsValid empty
empty-IsValid = record {
  by_dcid_map = tt;
  staged_map = tt;
  listed = λ d o h. absurd (ground (arith, get-nil {V = DcidOwner} d));
  owned = λ f d h. absurd (ground (arith, in_flow-none [] f d (get-nil {V = DcidSet} f)));
  apart = λ d o h. absurd (ground (arith, get-nil {V = DcidOwner} d));
}

-- From the empty index on, after any calls and whatever they returned, the two directions of the
-- index agree.
pub Reach-dcids : {x : ActiveDcidIndex} → Reach x → IsValid x
Reach-dcids start = empty-IsValid
Reach-dcids (stage d flow r) = stage_for_flow-IsValid (Reach-dcids r) d flow
Reach-dcids (publish d flow r) = publish_for_flow-IsValid (Reach-dcids r) d flow
Reach-dcids (publish_batch ds flow r) = (publish_batch-resolve (Reach-dcids r) ds flow).2
Reach-dcids (retire_any d r) = retire-IsValid (Reach-dcids r) d
Reach-dcids (retire_own d flow r) = retire_for_flow-IsValid (Reach-dcids r) d flow
Reach-dcids (close f r) = close_flow-IsValid (Reach-dcids r) f
