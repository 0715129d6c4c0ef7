-- ===== src/Reactors/Changes/Local.antt =====
-- Changes of the store under one key, and the sets of a map that they leave alone.
use radiant_prj.Common.{ℕ, String, ◌==◌, ◌≡◌, refl, ◌∙◌, false, some, [], ◌∷◌, arith, eq_iff}
use radiant_prj.Common.Dict.{Dict, lookup, has, lookup-insert, lookup-insert_self}
use radiant_prj.Common.Counts.{IsUnique}
use radiant_prj.Reactors.Types.{WorkerSet}
use radiant_prj.Reactors.Store.{ReactorStore, save_worker_set, redact_credentials}
use radiant_prj.Reactors.Manager.{is_removed}
use radiant_prj.Reactors.Changes.{set_key, Change, IsSound, IsKeyed, change-IsSound}

pub data Changes (bound : ℕ) (key : String) : ReactorStore → ReactorStore → Type 0 where
  stay : (s : ReactorStore) → Changes bound key s s
  then_saved :
      {s u : ReactorStore} (set : WorkerSet)
      → Changes bound key s u
      → set_key set ≡ key
      → Change bound u (save_worker_set set u)
      → Changes bound key s (save_worker_set set u)

-- A set that may be written over is stored under the key of this one.
abbrev pub IsHeld : WorkerSet → ReactorStore → Type 0
IsHeld set s =
    (old : WorkerSet) × (lookup (set_key set) s.sets ≡ some old)
    × (old.game_session_id ≡ set.game_session_id)
    × (is_removed old.lifecycle ≡ false)

pub held-Change :
    (bound : ℕ) (set : WorkerSet) (s : ReactorStore)
    → IsHeld set s
    → Change bound s (save_worker_set set s)
held-Change bound set s (old, at, same, kept) = Change.rewritten set old s at same kept

-- A set that is not removed is held once it is saved.
pub saved-IsHeld :
    (set : WorkerSet) (s : ReactorStore)
    → is_removed set.lifecycle ≡ false
    → IsHeld set (save_worker_set set s)
unfolding save_worker_set redact_credentials
saved-IsHeld set s kept =
    (redact_credentials set, lookup-insert_self (set_key set) _ s.sets, refl, kept)

pub Changes-IsSound :
    {bound : ℕ} {key : String} {s s' : ReactorStore}
    → Changes bound key s s'
    → IsSound bound s
    → IsSound bound s'
Changes-IsSound (Changes.stay s) sound = sound
Changes-IsSound (Changes.then_saved set earlier at change) sound =
    change-IsSound change (Changes-IsSound earlier sound)

-- The stores agree on every other key.
abbrev pub AgreeOff : String → ReactorStore → ReactorStore → Type 0
AgreeOff key s s' = (k : String) → (key == k) ≡ false → lookup k s'.sets ≡ lookup k s.sets

saved-AgreeOff :
    (set : WorkerSet) (s : ReactorStore) (k : String)
    → (set_key set == k) ≡ false
    → lookup k (save_worker_set set s).sets ≡ lookup k s.sets
unfolding save_worker_set
saved-AgreeOff set s k off =
    ground (arith, lookup-insert (set_key set) k (redact_credentials set) s.sets)

pub Changes-AgreeOff :
    {bound : ℕ} {key : String} {s s' : ReactorStore} → Changes bound key s s' → AgreeOff key s s'
Changes-AgreeOff (Changes.stay s) k off = refl
Changes-AgreeOff (Changes.then_saved {u} set earlier at change) k off =
    saved-AgreeOff set u k (rw at off) ∙ Changes-AgreeOff earlier k off

-- The store has the sets of the map under their own keys.
abbrev pub AreStored : Dict WorkerSet → ReactorStore → Type 0
AreStored [] s = Unit
AreStored ((k, set) ∷ m) s = (lookup k s.sets ≡ some set) × (set_key set ≡ k) × AreStored m s

has_tail :
    (key k : String) (set : WorkerSet) (m : Dict WorkerSet)
    → has key ((k, set) ∷ m) ≡ false
    → ((key == k) ≡ false) × (has key m ≡ false)
unfolding has lookup
has_tail key k set m h = (ground (arith, eq_iff key k, eq_iff k key), ground arith)

pub agree-AreStored :
    (key : String) (m : Dict WorkerSet) (s s' : ReactorStore)
    → AgreeOff key s s'
    → has key m ≡ false
    → AreStored m s
    → AreStored m s'
agree-AreStored key [] s s' agree off stored = tt
agree-AreStored key ((k, set) ∷ m) s s' agree off (at, own, stored) =
    let (apart, rest) = has_tail key k set m off in
    (agree k apart ∙ at, own, agree-AreStored key m s s' agree rest stored)

cons-AgreeOff :
    (key : String) (set : WorkerSet) (m : Dict WorkerSet)
    → AgreeOff key (record { sets = m }) (record { sets = (key, set) ∷ m })
unfolding lookup
cons-AgreeOff key set m k off = ground arith

pub own-AreStored :
    (m : Dict WorkerSet) → IsUnique m → IsKeyed m → AreStored m (record { sets = m })
unfolding lookup
own-AreStored [] u k = tt
own-AreStored ((key, set) ∷ m) (fresh, u) (own, k) = (
  ground (arith, eq_iff key key),
  own,
  agree-AreStored key m _ _ (cons-AgreeOff key set m) fresh (own-AreStored m u k),
)
