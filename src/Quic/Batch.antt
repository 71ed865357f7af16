-- ===== src/Quic/Batch.antt =====
-- src/flow_plane/quic_flow.rs: `publish_batch_for_flow`.
use new_proxy.Prelude.{
  Bool, true, false, ◌||◌, ◌≡◌, refl, arith, some, List, [], ◌∷◌, if◌then◌else◌, nat_eq, ◌==◌,
  Bool-cases, inl, inr, ok, err, Result, ◌⊎◌, ◌↔◌,
}
use new_proxy.HashMap
use new_proxy.HashMap.Laws.{get-insert, get-remove, get-nil}
use new_proxy.Net.{list_eq, list_beq_iff}
use new_proxy.Quic.Hash.{
  Dcid, DcidOwner, owner_eq, owner_beq_iff, QuicFlow, QuicFlowError, is_empty,
}
use new_proxy.Quic.Index.{
  DcidSet, ActiveDcidIndex, activate, unstage, resolve, owner_of, check_batch, activate_all,
  publish_batch_for_flow,
}
use new_proxy.Quic.Invariant.{IsValid, activate-IsValid, unstage-IsValid}
use new_proxy.Quic.Publish.{is_free, resolve-activate-unstage}

-- The identifier stands in the list.
unfoldable pub mem_dcid : Dcid → List Dcid → Bool
mem_dcid d [] = false
mem_dcid d (e ∷ es) = (e == d) || mem_dcid d es

module _ (x : ActiveDcidIndex) (o : DcidOwner) where
  -- Every identifier of the list can be published for the owner.
  abbrev pub AreFree : List Dcid → Type 0
  AreFree [] = Unit {0}
  AreFree (d ∷ ds) = (is_empty d ≡ false) × (is_free o (resolve x d) ≡ true) × AreFree ds

  -- What the first loop collects.
  check_batch-mem :
      (ds : List Dcid) (unique result : DcidSet) (e : Dcid)
      → check_batch x o unique ds ≡ ok result
      → HashMap.contains_key e result ≡ (HashMap.contains_key e unique || mem_dcid e ds)
  unfolding check_batch mem_dcid
  check_batch-mem [] unique result e h = ground arith
  check_batch-mem (d ∷ ds) unique result e h = ground (
    arith,
    check_batch-mem ds unique result e,
    check_batch-mem ds (HashMap.insert d tt unique) result e,
    get-insert e d tt unique,
    list_beq_iff d e,
  )

  abbrev IsGood : Dcid → Type 0
  IsGood e = (is_empty e ≡ false) × (is_free o (resolve x e) ≡ true)

  abbrev AreGood : DcidSet → Type 0
  AreGood s = (e : Dcid) → HashMap.contains_key e s ≡ true → IsGood e

  -- The first identifier passed the loop's tests, or was seen before.
  check_batch-first :
      (d : Dcid) (ds : List Dcid) (unique result : DcidSet)
      → AreGood unique
      → check_batch x o unique (d ∷ ds) ≡ ok result
      → IsGood d
        × ((check_batch x o unique ds ≡ ok result)
            ⊎ (check_batch x o (HashMap.insert d tt unique) ds ≡ ok result))
  unfolding check_batch
  check_batch-first d ds unique result good h = elim (Bool-cases (HashMap.contains_key d unique)) [
    | inl seen ↦ (good d seen, inl (ground arith))
    | inr new ↦ (ground arith, inr (ground arith))
  ]

  insert-AreGood : (d : Dcid) (s : DcidSet) → IsGood d → AreGood s → AreGood (HashMap.insert d tt s)
  insert-AreGood d s here good e h = ground (arith, get-insert e d tt s, list_beq_iff d e, good e)

  check_batch-AreFree :
      (ds : List Dcid) (unique result : DcidSet)
      → AreGood unique
      → check_batch x o unique ds ≡ ok result
      → AreFree ds × AreGood result
  check_batch-AreFree [] unique result good h =
      (tt, λ e g. good e (unfold check_batch in ground arith))
  check_batch-AreFree (d ∷ ds) unique result good h =
      let (here, rest) = check_batch-first d ds unique result good h in
      elim rest [
        | inl again ↦
            let (free, all) = check_batch-AreFree ds unique result good again in
            ((here.0, here.1, free), all)
        | inr fresh ↦
            let (free, all) =
              check_batch-AreFree ds (HashMap.insert d tt unique) result
                (insert-AreGood d unique here good) fresh in
            ((here.0, here.1, free), all)
      ]

  -- Free identifiers pass the loop.
  check_batch-ok :
      (ds : List Dcid) (unique : DcidSet)
      → AreFree ds
      → (result : DcidSet) × (check_batch x o unique ds ≡ ok result)
  unfolding check_batch
  check_batch-ok [] unique free = (unique, refl)
  check_batch-ok (d ∷ ds) unique (full, free, rest) =
      let (again, e) = check_batch-ok ds unique rest in
      let (fresh, f) = check_batch-ok ds (HashMap.insert d tt unique) rest in
      elim (Bool-cases (HashMap.contains_key d unique)) [
        | inl seen ↦ (again, ground arith)
        | inr new ↦ (fresh, ground arith)
      ]

-- What the second loop does to every look-up.
activate_all-resolve :
    (s : DcidSet) (x : ActiveDcidIndex) (o : DcidOwner) (e : Dcid)
    → resolve (activate_all x o s) e ≡ (if HashMap.contains_key e s then some o else resolve x e)
unfolding activate_all HashMap.get
activate_all-resolve [] x o e = refl
activate_all-resolve ((d, u) ∷ s) x o e = ground (
  arith,
  activate_all-resolve s (activate (unstage x d) d o) o e,
  resolve-activate-unstage x d e o,
)

activate_all-IsValid :
    (s : DcidSet) {x : ActiveDcidIndex} (o : DcidOwner)
    → IsValid x
    → ((e : Dcid) → HashMap.contains_key e s ≡ true → is_free o (resolve x e) ≡ true)
    → IsValid (activate_all x o s)
unfolding activate_all HashMap.get
activate_all-IsValid [] o v free = v
activate_all-IsValid ((d, u) ∷ s) {x} o v free =
    activate_all-IsValid s o
      (activate-IsValid (unstage-IsValid v d) d o
        (ground (arith, get-remove d d x.staged_by_dcid, list_beq_iff d d))
        (λ p h. unfold resolve in ground (arith, free d, list_beq_iff d d, owner_beq_iff p o)))
      (λ e h. ground (arith, free e, resolve-activate-unstage x d e o, owner_beq_iff o o))

module _ {x : ActiveDcidIndex} (v : IsValid x) (dcids : List Dcid) (flow : QuicFlow) where
  -- In a well-formed index, a batch is published exactly if every identifier in it is not empty
  -- and belongs to no other owner.
  pub publish_batch-ok_iff :
      ((publish_batch_for_flow x dcids flow).1 ≡ ok tt) ↔ AreFree x (owner_of flow) dcids
  unfolding publish_batch_for_flow
  publish_batch-ok_iff = (λ h. forward _ refl h, λ h. backward h)
    where
      none_seen : AreGood x (owner_of flow) []
      none_seen e h = absurd (ground (arith, get-nil {V = Unit {0}} e))

      forward :
          (r : Result QuicFlowError DcidSet)
          → check_batch x (owner_of flow) [] dcids ≡ r
          → (publish_batch_for_flow x dcids flow).1 ≡ ok tt
          → AreFree x (owner_of flow) dcids
      forward (err e) c h = absurd (ground arith)
      forward (ok unique) c h =
          (check_batch-AreFree x (owner_of flow) dcids [] unique none_seen c).0

      backward : AreFree x (owner_of flow) dcids → (publish_batch_for_flow x dcids flow).1 ≡ ok tt
      backward h =
          let (unique, e) = check_batch-ok x (owner_of flow) dcids [] h in
          rw (e, publish_batch_for_flow)

  -- In a well-formed index, a batch that is published belongs to the flow and all other
  -- identifiers resolve as before; a batch that is refused leaves the index as it was; and the
  -- index stays well formed.
  pub publish_batch-resolve :
      ((publish_batch_for_flow x dcids flow).1 ≡ ok tt
        → (e : Dcid)
        → resolve (publish_batch_for_flow x dcids flow).0 e
          ≡ (if mem_dcid e dcids then some (owner_of flow) else resolve x e))
      × ((p : QuicFlowError)
          → (publish_batch_for_flow x dcids flow).1 ≡ err p
          → (publish_batch_for_flow x dcids flow).0 ≡ x)
      × IsValid (publish_batch_for_flow x dcids flow).0
  unfolding publish_batch_for_flow
  publish_batch-resolve = by_result _ refl
    where
      none_seen : AreGood x (owner_of flow) []
      none_seen e h = absurd (ground (arith, get-nil {V = Unit {0}} e))

      by_result :
          (r : Result QuicFlowError DcidSet)
          → check_batch x (owner_of flow) [] dcids ≡ r
          → ((publish_batch_for_flow x dcids flow).1 ≡ ok tt
              → (e : Dcid)
              → resolve (publish_batch_for_flow x dcids flow).0 e
                ≡ (if mem_dcid e dcids then some (owner_of flow) else resolve x e))
            × ((p : QuicFlowError)
                → (publish_batch_for_flow x dcids flow).1 ≡ err p
                → (publish_batch_for_flow x dcids flow).0 ≡ x)
            × IsValid (publish_batch_for_flow x dcids flow).0
      by_result (err p) c =
          rw (c, publish_batch_for_flow) (λ h e. absurd (ground arith), λ q h. refl, v)
      by_result (ok unique) c =
          rw (c, publish_batch_for_flow)
            (
              λ h e. ground (
                arith,
                activate_all-resolve unique x (owner_of flow) e,
                check_batch-mem x (owner_of flow) dcids [] unique e c,
                get-nil {V = Unit {0}} e,
              ),
              λ p h. absurd (ground arith),
              activate_all-IsValid unique (owner_of flow) v (λ e h.
                  ((check_batch-AreFree x (owner_of flow) dcids [] unique none_seen c).1 e h).1),
            )
