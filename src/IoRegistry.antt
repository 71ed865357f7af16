-- ===== src/IoRegistry.antt =====
-- src/flow_plane/io_registry.rs: which IO worker owns an interface queue.
use new_proxy.Prelude.{Option, none, some, ◌≡◌, ◌==◌, Result, ok, err, if◌then◌else◌, refl}
use new_proxy.HashMap
use new_proxy.HashMap.{HashMap}
use new_proxy.HashMap.Laws.{get-insert}
use new_proxy.Net.{IoOwnerKey, io_eq}

pub data RegistryError : Type 0 where
  duplicate_owner : IoOwnerKey → RegistryError

abbrev pub IoRegistry : Type 0 → Type 0
IoRegistry T = HashMap IoOwnerKey T

module _ {T : Type 0} where
  unfoldable pub register :
      IoRegistry T → IoOwnerKey → T → IoRegistry T × Result RegistryError (Unit {0})
  register owners key owner =
      if HashMap.contains_key key owners
      then (owners, err (duplicate_owner key))
      else (HashMap.insert key owner owners, ok tt)

  unfoldable pub get : IoRegistry T → IoOwnerKey → Option T
  get owners key = HashMap.get key owners

  -- An owner is registered exactly if its queue has none, and then the queue alone gets it; else
  -- nothing changes and the error names the queue.
  pub register-get :
      (owners : IoRegistry T) (key : IoOwnerKey) (owner : T)
      → ((get owners key ≡ none)
          → ((register owners key owner).1 ≡ ok tt)
            × ((k : IoOwnerKey)
                → get (register owners key owner).0 k
                  ≡ (if key == k then some owner else get owners k)))
        × ((o : T)
            → get owners key ≡ some o
            → register owners key owner ≡ (owners, err (duplicate_owner key)))
  unfolding register get
  register-get owners key owner = (
    λ absent. rw (absent, register) (refl, λ k. get-insert k key owner owners),
    λ o found. rw (found, register),
  )
