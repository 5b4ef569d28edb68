-- ===== src/Symposium.antt =====
-- symposium.c: the dining philosophers, a monitor over `Mutex` and `CondVar`.
pub mod Seats
pub mod Meal
use disasteros.Common.{
  ℕ, ◌+◌, ◌-◌, ◌%◌, ◌<◌, ◌≡◌, Bool, true, false, ◌&&◌, not, if◌then◌else◌, update, ◌==◌,
}

-- `PHIL`
pub data Phil : Type 0 where
  nothere thinking hungry eating : Phil

abbrev pub is_hungry : Phil → Bool
is_hungry hungry = true
is_hungry nothere = false
is_hungry thinking = false
is_hungry eating = false

abbrev pub is_eating : Phil → Bool
is_eating eating = true
is_eating nothere = false
is_eating thinking = false
is_eating hungry = false

-- `SymposiumTable`, with `n` for `symp->N`. Only philosopher `i` waits on `hungry[i]`, so that ring
-- is whether he does.
pub record SymposiumTable : Type 0 where
  pub n : ℕ
  pub state : ℕ → Phil
  pub waits : ℕ → Bool

-- `LEFT`
unfoldable pub left_of : (i n : ℕ) → ℕ
left_of i n = (i + 1) % n

-- `RIGHT`
unfoldable pub right_of : (i n : ℕ) → ℕ
right_of i n = (i + n - 1) % n

-- `trytoeat`, with the `Cond_Signal` that ends the wait of `i`.
unfoldable pub trytoeat : (i : ℕ) → SymposiumTable → SymposiumTable
trytoeat i t =
    if is_hungry (t.state i)
      && not (is_eating (t.state (left_of i t.n)))
      && not (is_eating (t.state (right_of i t.n)))
    then record t { state = update t.state i eating; waits = update t.waits i false }
    else t

abbrev pub set_state : (i : ℕ) → Phil → SymposiumTable → SymposiumTable
set_state i p t = record t { state = update t.state i p }

-- The sections of `SymposiumTable_philosopher` between `Mutex_Lock` and `Mutex_Unlock`, or
-- `Cond_Wait`: the arrival,
unfoldable pub arrive : (i : ℕ) → SymposiumTable → SymposiumTable
arrive i t = set_state i thinking t

-- the test of the loop `while(state[i]==HUNGRY)`, which waits or goes on to eat,
unfoldable pub test_hungry : (i : ℕ) → SymposiumTable → SymposiumTable
test_hungry i t = if is_hungry (t.state i) then record t { waits = update t.waits i true } else t

-- the end of a time of thinking,
unfoldable pub get_hungry : (i : ℕ) → SymposiumTable → SymposiumTable
get_hungry i t = test_hungry i (trytoeat i (set_state i hungry t))

-- the end of a meal,
unfoldable pub finish_meal : (i : ℕ) → SymposiumTable → SymposiumTable
finish_meal i t = trytoeat (right_of i t.n) (trytoeat (left_of i t.n) (set_state i thinking t))

-- and the departure.
unfoldable pub depart : (i : ℕ) → SymposiumTable → SymposiumTable
depart i t = set_state i nothere t

-- `SymposiumTable_init`
unfoldable pub symposium_table_init : (n : ℕ) → SymposiumTable
symposium_table_init n = record { n = n; state = λ _. nothere; waits = λ _. false }

-- What the philosophers do, in any order: each goes through the sections of his program, with his own
-- state as he left it, but for the `trytoeat` of a neighbour. A wait ends when it is signalled, and
-- there are any number of bites.
pub data Step : SymposiumTable → SymposiumTable → Type 0 where
  arrives : {t : SymposiumTable} (i : ℕ) → i < t.n → t.state i ≡ nothere → Step t (arrive i t)
  hungers : {t : SymposiumTable} (i : ℕ) → i < t.n → t.state i ≡ thinking → Step t (get_hungry i t)
  wakes :
      {t : SymposiumTable} (i : ℕ)
      → i < t.n
      → t.waits i ≡ false
      → t.state i ≡ hungry
      → Step t (test_hungry i t)
  finishes : {t : SymposiumTable} (i : ℕ) → i < t.n → t.state i ≡ eating → Step t (finish_meal i t)
  leaves : {t : SymposiumTable} (i : ℕ) → i < t.n → t.state i ≡ thinking → Step t (depart i t)

pub data Dinner (t : SymposiumTable) : SymposiumTable → Type 0 where
  start : Dinner t t
  course : {u v : SymposiumTable} → Dinner t u → Step u v → Dinner t v
