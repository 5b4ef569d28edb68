-- ===== src/Symposium/Meal.antt =====
-- symposium.c: neighbours never eat together, and nobody waits who could eat.
use disasteros.Common.{
  ℕ, ◌<◌, ◌≡◌, ◌≢◌, refl, sym, ap, subst, ◌∙◌, Bool, true, false, ◌&&◌, ◌||◌, not, ◌⊎◌, inl, inr,
  Bool-cases, ◌==◌, if◌then◌else◌, update, arith,
}
use disasteros.Symposium.{
  Phil, nothere, thinking, hungry, eating, is_hungry, is_eating, SymposiumTable, left_of, right_of,
  trytoeat, set_state, arrive, test_hungry, get_hungry, finish_meal, depart, symposium_table_init,
  Step, arrives, hungers, wakes, finishes, leaves, Dinner, start, course,
}
use disasteros.Symposium.Seats.{seat}

abbrev pub eats : SymposiumTable → ℕ → Bool
eats t i = is_eating (t.state i)

abbrev pub hungry_at : SymposiumTable → ℕ → Bool
hungry_at t i = is_hungry (t.state i)

-- A hungry philosopher has a neighbour who eats.
abbrev pub Served : SymposiumTable → ℕ → Type 0
Served t i = hungry_at t i ≡ true → (eats t (left_of i t.n) || eats t (right_of i t.n)) ≡ true

-- Who eats has no neighbour who eats, and who waits is hungry.
pub record Apart (t : SymposiumTable) : Type 0 where
  pub seats : 1 < t.n
  pub forks : (i : ℕ) → i < t.n → eats t i ≡ true → eats t (left_of i t.n) ≡ false
  pub awake : (i : ℕ) → t.waits i ≡ true → hungry_at t i ≡ true

abbrev eaten : (k : ℕ) → SymposiumTable → SymposiumTable
eaten k t = record t { state = update t.state k eating; waits = update t.waits k false }

trytoeat-cases :
    (k : ℕ) (t : SymposiumTable)
    → ((trytoeat k t ≡ t) × Served t k)
      ⊎ ((trytoeat k t ≡ eaten k t)
          × (eats t (left_of k t.n) ≡ false)
          × (eats t (right_of k t.n) ≡ false))
unfolding trytoeat
trytoeat-cases k t =
    elim (Bool-cases
      (hungry_at t k && not (eats t (left_of k t.n)) && not (eats t (right_of k t.n)))) [
        | inl e ↦ inr (rw e refl, ground arith, ground arith)
        | inr e ↦ inl (rw e refl, λ h. ground arith)
      ]

eaten-Apart :
    (k : ℕ) (t : SymposiumTable)
    → k < t.n
    → eats t (left_of k t.n) ≡ false
    → eats t (right_of k t.n) ≡ false
    → Apart t
    → Apart (eaten k t)
eaten-Apart k t h l r a = record {
  seats = a.seats;
  forks = λ i hi e.
      let s = seat i t.n hi a.seats in
      let z = seat k t.n h a.seats in
      ground (arith, a.forks i hi, s.left_other, s.right-left, z.left_other);
  awake = λ i e. ground (arith, a.awake i);
}

-- What `trytoeat` leaves.
record Tried (k : ℕ) (t t' : SymposiumTable) : Type 0 where
  same_table : t'.n ≡ t.n
  apart : Apart t → Apart t'
  own : Served t' k
  others : (i : ℕ) → Served t i → Served t' i
  states : (i : ℕ) → i ≢ k → t'.state i ≡ t.state i

trytoeat-Tried : (k : ℕ) (t : SymposiumTable) → k < t.n → Tried k t (trytoeat k t)
trytoeat-Tried k t h = elim (trytoeat-cases k t) [
  | inl (e, s) ↦ subst (Tried k t) (sym e) (record {
    same_table = refl;
    apart = λ a. a;
    own = s;
    others = λ i v. v;
    states = λ i n. refl;
  })
  | inr (e, l, r) ↦ subst (Tried k t) (sym e) (record {
    same_table = refl;
    apart = eaten-Apart k t h l r;
    own = λ u. ground arith;
    others = λ i v u. ground (arith, v);
    states = λ i n. ground arith;
  })
]

-- The invariant of the table.
abbrev pub Orderly : SymposiumTable → Type 0
Orderly t = Apart t × ((i : ℕ) → i < t.n → Served t i)

-- A philosopher who is neither hungry nor eats, before and after.
quiet-Orderly :
    (i : ℕ) (p : Phil) (t : SymposiumTable)
    → is_hungry (t.state i) ≡ false
    → is_eating (t.state i) ≡ false
    → is_hungry p ≡ false
    → is_eating p ≡ false
    → Orderly t
    → Orderly (set_state i p t)
quiet-Orderly i p t h e h' e' (a, s) = (
  record {
    seats = a.seats;
    forks = λ j l u. ground (arith, a.forks j l);
    awake = λ j u. ground (arith, a.awake j);
  },
  λ j l u. ground (arith, s j l),
)

test_hungry-Orderly : (i : ℕ) (t : SymposiumTable) → Orderly t → Orderly (test_hungry i t)
unfolding test_hungry
test_hungry-Orderly i t (a, s) = elim (Bool-cases (hungry_at t i)) [
  | inr e ↦ rw e (a, s)
  | inl e ↦
      subst Orderly (sym (ap (λ b. if b then record t { waits = update t.waits i true } else t) e))
        (record { seats = a.seats; forks = a.forks; awake = λ j u. ground (arith, a.awake j) }, s)
]

get_hungry-Orderly :
    (i : ℕ) (t : SymposiumTable)
    → i < t.n
    → t.state i ≡ thinking
    → Orderly t
    → Orderly (get_hungry i t)
unfolding get_hungry
get_hungry-Orderly i t l e (a, s) =
    let t₁ = set_state i hungry t in
    let was : (is_hungry (t.state i) ≡ false) × (is_eating (t.state i) ≡ false) =
      (ap is_hungry e, ap is_eating e) in
    let a₁ : Apart t₁ = record {
      seats = a.seats;
      forks = λ j m u. ground (arith, a.forks j m, was.1);
      awake = λ j u. ground (arith, a.awake j);
    } in
    let r = trytoeat-Tried i t₁ l in
    test_hungry-Orderly i (trytoeat i t₁) (
      r.apart a₁,
      λ j m. elim (Bool-cases (j == i)) [
        | inl k ↦ subst (Served (trytoeat i t₁)) {x = i} {y = j} (ground arith) r.own
        | inr k ↦ r.others j (λ u. ground (arith, s j, was.1, r.same_table))
      ],
    )

finish_meal-Orderly :
    (i : ℕ) (t : SymposiumTable)
    → i < t.n
    → t.state i ≡ eating
    → Orderly t
    → Orderly (finish_meal i t)
unfolding finish_meal
finish_meal-Orderly i t l e (a, s) =
    let t₁ = set_state i thinking t in
    let was : (is_hungry (t.state i) ≡ false) × (is_eating (t.state i) ≡ true) =
      (ap is_hungry e, ap is_eating e) in
    let a₁ : Apart t₁ = record {
      seats = a.seats;
      forks = λ j m u. ground (arith, a.forks j m);
      awake = λ j u. ground (arith, a.awake j, was.0);
    } in
    let p = seat i t.n l a.seats in
    let t₂ = trytoeat (left_of i t.n) t₁ in
    let r = trytoeat-Tried (left_of i t.n) t₁ p.left_in in
    let right_in₂ : right_of i t.n < t₂.n =
      subst (λ k. right_of i t.n < k) (sym r.same_table) p.right_in in
    let q = trytoeat-Tried (right_of i t.n) t₂ right_in₂ in
    (
      q.apart (r.apart a₁),
      λ j m. elim (Bool-cases (j == right_of i t.n)) [
        | inl k ↦
            subst (Served (trytoeat (right_of i t.n) t₂)) {x = right_of i t.n} {y = j}
              (ground arith) q.own
        | inr k ↦ elim (Bool-cases (j == left_of i t.n)) [
          | inl k' ↦ q.others j (subst (Served t₂) {x = left_of i t.n} {y = j} (ground arith) r.own)
          | inr k' ↦
              let in_t : j < t.n = subst (λ n. j < n) (q.same_table ∙ r.same_table) m in
              let z = seat j t.n in_t a.seats in
              q.others j (r.others j (λ u. ground (arith, s j in_t, z.right-left, z.left-right)))
        ]
      ],
    )

Step-Orderly : {t t' : SymposiumTable} → Step t t' → Orderly t → Orderly t'
unfolding arrive depart
Step-Orderly {t} (arrives i l e) o =
    quiet-Orderly i thinking t (ap is_hungry e) (ap is_eating e) refl refl o
Step-Orderly {t} (leaves i l e) o =
    quiet-Orderly i nothere t (ap is_hungry e) (ap is_eating e) refl refl o
Step-Orderly {t} (hungers i l e) o = get_hungry-Orderly i t l e o
Step-Orderly {t} (wakes i l w e) o = test_hungry-Orderly i t o
Step-Orderly {t} (finishes i l e) o = finish_meal-Orderly i t l e o

symposium_table_init-Orderly : (n : ℕ) → 1 < n → Orderly (symposium_table_init n)
unfolding symposium_table_init
symposium_table_init-Orderly n h =
    (record { seats = h; forks = λ i l e. cc; awake = λ i e. cc }, λ i l e. cc)

Dinner-kept : {t t' : SymposiumTable} → Dinner t t' → Orderly t → Orderly t'
Dinner-kept start o = o
Dinner-kept (course d s) o = Step-Orderly s (Dinner-kept d o)

-- However the philosophers, two or more, interleave from an empty table on: who eats has no
-- neighbour who eats; a hungry philosopher has a neighbour who eats; and who sleeps on his condition
-- variable is hungry, so that no right to eat is given to a philosopher who is not woken.
pub Dinner-Orderly :
    {n : ℕ} {t : SymposiumTable} → 1 < n → Dinner (symposium_table_init n) t → Orderly t
Dinner-Orderly {n} h d = Dinner-kept d (symposium_table_init-Orderly n h)
