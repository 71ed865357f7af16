-- ===== src/Quic/Publish.antt =====
-- src/flow_plane/quic_flow.rs: staging, publishing and retiring one connection identifier.
use new_proxy.Prelude.{
  Bool, true, false, ◌&&◌, ◌≡◌, arith, Option, none, some, if◌then◌else◌, nat_eq, ◌==◌,
  Option-cases, Bool-cases, inl, inr, ok, err, ◌↔◌,
}
use new_proxy.HashMap
use new_proxy.HashMap.Laws.{get-insert, get-remove}
use new_proxy.Net.{list_eq, list_beq_iff}
use new_proxy.Quic.Hash.{
  Dcid, DcidOwner, owner_eq, owner_beq_iff, QuicFlow, QuicFlowError, is_empty,
}
use new_proxy.Quic.Index.{
  ActiveDcidIndex, activate, unstage, resolve, owner_of, stage_for_flow, publish, publish_for_flow,
  retire, retire_for_flow,
}
use new_proxy.Quic.Invariant.{
  IsValid, activate-IsValid, unstage-IsValid, stage-IsValid, drop-IsValid, drop_staged-IsValid,
  by_dcid-activate, staged-activate,
}

-- An identifier that becomes active belongs to the owner; the others keep theirs.
pub resolve-activate :
    (x : ActiveDcidIndex) (d e : Dcid) (o : DcidOwner)
    → resolve (activate x d o) e ≡ (if d == e then some o else resolve x e)
unfolding resolve
resolve-activate x d e o = ground (arith, by_dcid-activate x d e o, staged-activate x d o)

pub resolve-activate-unstage :
    (x : ActiveDcidIndex) (d e : Dcid) (o : DcidOwner)
    → resolve (activate (unstage x d) d o) e ≡ (if d == e then some o else resolve x e)
unfolding resolve
resolve-activate-unstage x d e o = ground (
  arith,
  by_dcid-activate (unstage x d) d e o,
  staged-activate (unstage x d) d o,
  get-remove e d x.staged_by_dcid,
)

-- The owner that is looked up is this one; or it is this one or none.
abbrev pub is_own : DcidOwner → Option DcidOwner → Bool
is_own o none = false
is_own o (some p) = p == o

abbrev pub is_free : DcidOwner → Option DcidOwner → Bool
is_free o none = true
is_free o (some p) = p == o

module _ {x : ActiveDcidIndex} (v : IsValid x) (d : Dcid) where
  unresolved : resolve x d ≡ none → HashMap.get d x.by_dcid ≡ none
  unfolding resolve
  unresolved h = ground arith

  pub retire-IsValid : IsValid (retire x d).0
  unfolding retire
  retire-IsValid = elim (Option-cases (HashMap.get d x.by_dcid)) [
    | inr (p, found) ↦ rw (found, retire) (drop-IsValid v d p found)
    | inl unpublished ↦ elim (Option-cases (HashMap.get d x.staged_by_dcid)) [
      | inl unstaged ↦ rw (unpublished, unstaged, retire) v
      | inr (p, staged) ↦ rw (unpublished, staged, retire) (drop_staged-IsValid v d p unpublished)
    ]
  ]

  publish-IsValid : (o : DcidOwner) → IsValid (publish x d o).0
  unfolding publish
  publish-IsValid o = elim (Bool-cases (is_empty d)) [
    | inl empty ↦ rw (empty, publish) v
    | inr full ↦ elim (Option-cases (HashMap.get d x.by_dcid)) [
      | inr (p, found) ↦ elim (Bool-cases (p == o)) [
        | inl same ↦ rw (full, found, same, publish) v
        | inr other ↦ rw (full, found, other, publish) v
      ]
      | inl unpublished ↦ elim (Option-cases (HashMap.get d x.staged_by_dcid)) [
        | inl unstaged ↦
            rw (full, unpublished, unstaged, publish)
              (activate-IsValid v d o unstaged (λ p h. absurd (ground arith)))
        | inr (p, staged) ↦ elim (Bool-cases (p == o)) [
          | inl same ↦
              rw (full, unpublished, staged, same, publish)
                (activate-IsValid (unstage-IsValid v d) d o
                  (ground (arith, get-remove d d x.staged_by_dcid, list_beq_iff d d))
                  (λ q h. absurd (ground arith)))
          | inr other ↦
              rw (full, unpublished, staged, other, publish)
                (stage-IsValid (unstage-IsValid v d) d p unpublished)
        ]
      ]
    ]
  ]

  module _ (flow : QuicFlow) (e : Dcid) where
    abbrev owner : DcidOwner
    owner = owner_of flow

    -- How the writes of a publication read at `e`.
    writes :
        (HashMap.get e (activate x d owner).by_dcid
          ≡ (if d == e then some owner else HashMap.get e x.by_dcid))
        × ((activate x d owner).staged_by_dcid ≡ x.staged_by_dcid)
        × (HashMap.get e (activate (unstage x d) d owner).by_dcid
            ≡ (if d == e then some owner else HashMap.get e x.by_dcid))
        × ((activate (unstage x d) d owner).staged_by_dcid ≡ HashMap.remove d x.staged_by_dcid)
        × (HashMap.get e (HashMap.remove d x.staged_by_dcid)
            ≡ (if d == e then none else HashMap.get e x.staged_by_dcid))
    writes = (
      by_dcid-activate x d e owner,
      staged-activate x d owner,
      by_dcid-activate (unstage x d) d e owner,
      staged-activate (unstage x d) d owner,
      get-remove e d x.staged_by_dcid,
    )

    -- In a well-formed index, a publication that succeeds makes the flow the owner and moves no
    -- other identifier; one that fails moves no identifier.
    pub publish_for_flow-resolve :
        ((publish_for_flow x d flow).1 ≡ ok tt
          → resolve (publish_for_flow x d flow).0 e
            ≡ (if d == e then some (owner_of flow) else resolve x e))
        × ((p : QuicFlowError)
            → (publish_for_flow x d flow).1 ≡ err p
            → resolve (publish_for_flow x d flow).0 e ≡ resolve x e)
    unfolding publish_for_flow publish resolve
    publish_for_flow-resolve = elim (Option-cases (HashMap.get d x.by_dcid)) [
      | inr (p, found) ↦ (
        λ h. ground (arith, writes, list_beq_iff d e, owner_beq_iff p owner),
        λ q h. ground (arith, writes, list_beq_iff d e, owner_beq_iff p owner),
      )
      | inl unpublished ↦ elim (Option-cases (HashMap.get d x.staged_by_dcid)) [
        | inl unstaged ↦ (
          λ h. ground (arith, writes, list_beq_iff d e),
          λ q h. ground (arith, writes, list_beq_iff d e),
        )
        | inr (p, staged) ↦ (
          λ h. ground (arith, writes, list_beq_iff d e, owner_beq_iff p owner),
          λ q h. ground (
            arith,
            writes,
            list_beq_iff d e,
            owner_beq_iff p owner,
            get-insert e d p (HashMap.remove d x.staged_by_dcid),
          ),
        )
      ]
    ]

    -- Staging never takes an identifier from its owner.
    pub stage_for_flow-resolve :
        ((stage_for_flow x d flow).1 ≡ ok tt
          → resolve (stage_for_flow x d flow).0 e
            ≡ (if d == e then some (owner_of flow) else resolve x e))
        × ((p : QuicFlowError)
            → (stage_for_flow x d flow).1 ≡ err p
            → (stage_for_flow x d flow).0 ≡ x)
    unfolding stage_for_flow resolve
    stage_for_flow-resolve = elim (Option-cases (HashMap.get d x.by_dcid)) [
      | inr (p, found) ↦ (
        λ h. ground (arith, list_beq_iff d e, owner_beq_iff p owner),
        λ q h. ground (arith, owner_beq_iff p owner),
      )
      | inl unpublished ↦ elim (Option-cases (HashMap.get d x.staged_by_dcid)) [
        | inl unstaged ↦ (
          λ h. ground (arith, list_beq_iff d e, get-insert e d owner x.staged_by_dcid),
          λ q h. ground arith,
        )
        | inr (p, staged) ↦ (
          λ h. ground (arith, list_beq_iff d e, owner_beq_iff p owner),
          λ q h. ground (arith, owner_beq_iff p owner),
        )
      ]
    ]

    -- In a well-formed index, an identifier is retired exactly by its owner: then it resolves to
    -- nobody, and all others resolve as before.
    pub retire_for_flow-resolve :
        resolve (retire_for_flow x d flow).0 e
        ≡ (if (d == e) && is_own (owner_of flow) (resolve x d) then none else resolve x e)
    unfolding retire_for_flow retire resolve
    retire_for_flow-resolve = elim (Option-cases (HashMap.get d x.by_dcid)) [
      | inr (p, found) ↦
          ground (arith, list_beq_iff d e, get-remove e d x.by_dcid, v.apart d p found)
      | inl unpublished ↦ elim (Option-cases (HashMap.get d x.staged_by_dcid)) [
        | inl unstaged ↦ ground (arith, list_beq_iff d e)
        | inr (p, staged) ↦ ground (arith, list_beq_iff d e, get-remove e d x.staged_by_dcid)
      ]
    ]

  module _ (flow : QuicFlow) where
    -- An identifier is staged or published for a flow exactly if it is not empty and no other
    -- flow has it.
    pub stage_for_flow-ok_iff :
        ((stage_for_flow x d flow).1 ≡ ok tt)
        ↔ ((is_empty d ≡ false) × (is_free (owner_of flow) (resolve x d) ≡ true))
    unfolding stage_for_flow
    stage_for_flow-ok_iff = ground arith

    -- In a well-formed index, a publication succeeds exactly if the identifier is not empty and
    -- resolves to nobody but this flow.
    pub publish_for_flow-ok_iff :
        ((publish_for_flow x d flow).1 ≡ ok tt)
        ↔ ((is_empty d ≡ false) × (is_free (owner_of flow) (resolve x d) ≡ true))
    unfolding publish_for_flow publish resolve
    publish_for_flow-ok_iff = ground arith

    pub stage_for_flow-IsValid : IsValid (stage_for_flow x d flow).0
    unfolding stage_for_flow
    stage_for_flow-IsValid = elim (Option-cases (resolve x d)) [
      | inl absent ↦ elim (Bool-cases (is_empty d)) [
        | inl empty ↦ rw (empty, stage_for_flow) v
        | inr full ↦
            rw (full, absent, stage_for_flow)
              (stage-IsValid v d (owner_of flow) (unresolved absent))
      ]
      | inr (p, found) ↦ elim (Bool-cases (is_empty d)) [
        | inl empty ↦ rw (empty, stage_for_flow) v
        | inr full ↦ elim (Bool-cases (p == owner_of flow)) [
          | inl same ↦ rw (full, found, same, stage_for_flow) v
          | inr other ↦ rw (full, found, other, stage_for_flow) v
        ]
      ]
    ]

    pub publish_for_flow-IsValid : IsValid (publish_for_flow x d flow).0
    unfolding publish_for_flow
    publish_for_flow-IsValid = publish-IsValid (owner_of flow)

    pub retire_for_flow-IsValid : IsValid (retire_for_flow x d flow).0
    unfolding retire_for_flow
    retire_for_flow-IsValid = elim (Option-cases (resolve x d)) [
      | inl absent ↦ rw (absent, retire_for_flow) v
      | inr (p, found) ↦ elim (Bool-cases (p == owner_of flow)) [
        | inl same ↦ rw (found, same, retire_for_flow) retire-IsValid
        | inr other ↦ rw (found, other, retire_for_flow) v
      ]
    ]
