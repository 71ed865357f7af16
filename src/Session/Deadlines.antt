-- ===== src/Session/Deadlines.antt =====
-- src/flow_plane/session.rs: the deadline index, `BTreeMap<Instant, HashSet<SessionId>>`.
use new_proxy.Prelude.{Option, none, some, List, [], ◌∷◌, ◌++◌, if◌then◌else◌, leb, nat_eq, map}
use new_proxy.HashMap
use new_proxy.HashMap.{HashMap}
use new_proxy.BTreeMap
use new_proxy.BTreeMap.{BTreeMap}
use new_proxy.Net.{SessionId, Instant}

abbrev pub Bucket : Type 0
Bucket = HashMap SessionId (Unit {0})

abbrev pub Deadlines : Type 0
Deadlines = BTreeMap Bucket

abbrev pub bucket_or_default : Option Bucket → Bucket
bucket_or_default none = []
bucket_or_default (some ids) = ids

-- `deadlines.entry(deadline).or_default().insert(session_id)`
unfoldable pub add_deadline : Deadlines → Instant → SessionId → Deadlines
add_deadline deadlines deadline session_id =
    BTreeMap.insert deadline
      (HashMap.insert session_id tt (bucket_or_default (BTreeMap.get deadline deadlines))) deadlines

-- An empty bucket goes away.
unfoldable pub put_bucket : Deadlines → Instant → Bucket → Deadlines
put_bucket deadlines deadline [] = BTreeMap.remove deadline deadlines
put_bucket deadlines deadline (id ∷ ids) = BTreeMap.insert deadline (id ∷ ids) deadlines

unfoldable pub remove_deadline : Deadlines → Instant → SessionId → Deadlines
unfolding put_bucket
remove_deadline deadlines deadline session_id = elim (BTreeMap.get deadline deadlines) [
  | none ↦ deadlines
  | some ids ↦ put_bucket deadlines deadline (HashMap.remove session_id ids)
]

abbrev pub ids_of : Bucket → List SessionId
ids_of = map (λ e. e.0)

-- The `while` loop of `expire_idle`: pops the buckets that are due.
unfoldable pub pop_due : Deadlines → Instant → List SessionId × Deadlines
pop_due [] now = ([], [])
pop_due ((deadline, ids) ∷ deadlines) now =
    let rest = pop_due deadlines now in
    if leb deadline now then (ids_of ids ++ rest.0, rest.1) else ([], (deadline, ids) ∷ deadlines)
