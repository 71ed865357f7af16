-- ===== src/Quic/Hash.antt =====
-- src/flow_plane/quic_flow.rs: the FNV-1a hash, `bootstrap_owner` and `QuicFlow`.
use new_proxy.Prelude.{
  ℕ, ◌*◌, ◌%◌, ◌^◌, ◌<◌, Bool, true, false, List, [], ◌∷◌, bit_xor, if◌then◌else◌, nat_beq, Result,
  ok, err, ◌≡◌, Eq, ◌==◌, nat_eq, ◌&&◌, ◌↔◌, arith,
}
use native.Mathlib.Nat.{mod-lt, mod-le}
use new_proxy.Net.{QuicFlowId}

abbrev pub Dcid : Type 0
Dcid = List ℕ

abbrev pub is_empty : Dcid → Bool
is_empty [] = true
is_empty (b ∷ bs) = false

abbrev pub offset_basis : ℕ
offset_basis = 0xcbf29ce484222325

abbrev pub prime : ℕ
prime = 0x100000001b3

-- The fold of `fnv1a`, from a hash.
unfoldable pub fnv1a_from : ℕ → List ℕ → ℕ
fnv1a_from hash [] = hash
fnv1a_from hash (byte ∷ bytes) = fnv1a_from ((bit_xor hash byte * prime) % 2 ^ 64) bytes

unfoldable pub fnv1a : List ℕ → ℕ
unfolding fnv1a_from
fnv1a bytes = fnv1a_from offset_basis bytes

pub record DcidOwner : Type 0 where
  pub flow_worker_id : ℕ
  pub quic_flow_id : QuicFlowId

unfoldable pub owner_beq : DcidOwner → DcidOwner → Bool
owner_beq a b = a.flow_worker_id == b.flow_worker_id && a.quic_flow_id == b.quic_flow_id

pub owner_beq_iff : (a b : DcidOwner) → (owner_beq a b ≡ true) ↔ (a ≡ b)
unfolding owner_beq
owner_beq_iff a b = ground arith

instance abbrev pub owner_eq : Eq DcidOwner
owner_eq = record { beq = owner_beq; beq_iff = owner_beq_iff }

pub record QuicFlow : Type 0 where
  pub id : QuicFlowId
  pub flow_worker_id : ℕ
  pub tunnel_queue_id : ℕ

pub data QuicFlowError : Type 0 where
  empty_dcid zero_workers zero_tunnel_queues : QuicFlowError
  duplicate_dcid : DcidOwner → QuicFlowError

-- The cast to `u32` keeps the low 32 bits.
unfoldable pub new_flow : QuicFlowId → ℕ → Dcid → ℕ → Result QuicFlowError QuicFlow
new_flow id flow_worker_id initial_dcid tunnel_queue_count =
    if is_empty initial_dcid
    then err empty_dcid
    else if nat_beq tunnel_queue_count 0
    then err zero_tunnel_queues
    else ok (record {
      id = id;
      flow_worker_id = flow_worker_id;
      tunnel_queue_id = (fnv1a initial_dcid % tunnel_queue_count) % 2 ^ 32;
    })

-- `usize` has 64 bits.
unfoldable pub bootstrap_owner : Dcid → ℕ → Result QuicFlowError ℕ
bootstrap_owner dcid worker_count =
    if is_empty dcid
    then err empty_dcid
    else if nat_beq worker_count 0
    then err zero_workers
    else ok (fnv1a dcid % worker_count)

-- A flow that is made has the identifier and the worker it was made with and a tunnel queue below
-- the number of queues; a bootstrap owner is below the number of workers.
pub queues_in_range :
    (id : QuicFlowId) (w : ℕ) (dcid : Dcid) (queues : ℕ)
    → ((flow : QuicFlow)
        → new_flow id w dcid queues ≡ ok flow
        → (flow.id ≡ id) × (flow.flow_worker_id ≡ w) × (flow.tunnel_queue_id < queues))
      × ((n worker : ℕ) → bootstrap_owner dcid n ≡ ok worker → worker < n)
unfolding new_flow bootstrap_owner
queues_in_range id w dcid queues = (
  λ flow h.
      ground
        (arith, λ (p : 0 < queues). mod-lt (fnv1a dcid) p, mod-le (fnv1a dcid % queues) (2 ^ 32)),
  λ n worker h. ground (arith, λ (p : 0 < n). mod-lt (fnv1a dcid) p),
)
