-- ===== src/PivotTableUi/Totals.antt =====
-- PivotTableUiUtils.js: `isTotalsMember` finds the first item that a tuple is a total over.
use huey.Base.{
  ℕ, zero, suc, ◌+◌, ◌*◌, ◌/◌, ◌%◌, ◌≤◌, ◌≡◌, refl, sym, ap, ◌∙◌, Bool, true, false, ◌&&◌, Option,
  none, some, List, [], ◌∷◌, if◌then◌else◌, length, get_elem?, arith, Bool-cases, inl, inr,
}
use huey.PivotTableUi.{
  collect_indices, get_totals_items_indices, has_bit, find_bit, is_totals_member, SettingsObject,
  get_max_cell_width, clamp_width, resolve,
}
use huey.QueryModel.Item.{ℤ}

-- An item, and whether the tuple is a total over it.
pub record Member : Type 0 where
  pub include_totals : Bool
  pub is_total : Bool

unfoldable pub inclusions : List Member → List Bool
inclusions [] = []
inclusions (m ∷ members) = m.include_totals ∷ inclusions members

unfoldable pub bit : Bool → ℕ
bit true = 1
bit false = 0

-- GROUPING_ID of the items with totals: the first gives the highest bit.
unfoldable pub grouping_id : ℕ → List Member → ℕ
unfolding bit
grouping_id id [] = id
grouping_id id (m ∷ members) =
    grouping_id (if m.include_totals then 2 * id + bit m.is_total else id) members

-- The index of the first item with totals that the tuple is a total over.
unfoldable pub first_total : ℕ → List Member → Option ℕ
first_total index [] = none
first_total index (m ∷ members) =
    let rest = first_total (suc index) members in
    if m.include_totals && m.is_total then some index else rest

or_else : Option ℕ → Option ℕ → Option ℕ
or_else none o = o
or_else (some i) o = some i

half : (id : ℕ) (b : Bool) → ((2 * id + bit b) / 2 ≡ id) × ((2 * id + bit b) % 2 ≡ bit b)
unfolding bit
half id true = (omega arith, omega arith)
half id false = (omega arith, omega arith)

has_bit-zero : (id : ℕ) (b : Bool) → has_bit (2 * id + bit b) 0 ≡ b
unfolding has_bit bit
has_bit-zero id b = ground (arith, half id b)

has_bit-suc : (id : ℕ) (b : Bool) (i : ℕ) → has_bit (2 * id + bit b) (suc i) ≡ has_bit id i
unfolding has_bit
has_bit-suc id b i = rw ((half id b).0) refl

get_elem?-below :
    (indices : List ℕ) (n : ℕ) → suc n ≤ length indices → (a : ℕ) × (get_elem? indices n ≡ some a)
get_elem?-below [] n h = absurd (omega arith)
get_elem?-below (a ∷ indices) zero h = (a, refl)
get_elem?-below (a ∷ indices) (suc n) h = get_elem?-below indices n (omega arith)

find_bit-unshift :
    (id : ℕ) (b : Bool) (index : ℕ) (indices : List ℕ) (n : ℕ)
    → n ≤ length indices
    → find_bit (2 * id + bit b) (index ∷ indices) (suc n)
      ≡ or_else (find_bit id indices n) (if b then some index else none)
unfolding find_bit or_else
find_bit-unshift id b index indices zero h = ground (arith, has_bit-zero id b)
find_bit-unshift id b index indices (suc n) h =
    let (a, there) = get_elem?-below indices n h in
    ground (arith, find_bit-unshift id b index indices n (omega arith), has_bit-suc id b n, there)

or_else_assoc : (a b c : Option ℕ) → or_else (or_else a b) c ≡ or_else a (or_else b c)
unfolding or_else
or_else_assoc none b c = refl
or_else_assoc (some a) b c = refl

or_else-none : (a : Option ℕ) → or_else a none ≡ a
unfolding or_else
or_else-none none = refl
or_else-none (some a) = refl

chosen :
    (b : Bool) (i : ℕ) (rest : Option ℕ)
    → or_else (if b then some i else none) rest ≡ (if b then some i else rest)
unfolding or_else
chosen true i rest = refl
chosen false i rest = refl

find_bit-collect_indices :
    (members : List Member) (id : ℕ) (index : ℕ) (indices : List ℕ)
    → find_bit
        (grouping_id id members)
        (collect_indices indices index (inclusions members))
        (length (collect_indices indices index (inclusions members)))
      ≡ or_else (find_bit id indices (length indices)) (first_total index members)
unfolding grouping_id collect_indices inclusions first_total
find_bit-collect_indices [] id index indices =
    sym (or_else-none (find_bit id indices (length indices)))
find_bit-collect_indices (m ∷ members) id index indices = elim (Bool-cases m.include_totals) [
  | inr e ↦ rw e (find_bit-collect_indices members id (suc index) indices)
  | inl e ↦
      let rest = first_total (suc index) members in
      let own = if m.is_total then some index else none in
      rw e (
        find_bit-collect_indices members (2 * id + bit m.is_total) (suc index) (index ∷ indices)
        ∙ ap (λ o. or_else o rest)
            (find_bit-unshift id m.is_total index indices (length indices) (omega arith))
        ∙ or_else_assoc (find_bit id indices (length indices)) own rest
        ∙ ap (or_else (find_bit id indices (length indices))) (chosen m.is_total index rest))
]

has_bit-none : (i : ℕ) → has_bit 0 i ≡ false
unfolding has_bit
has_bit-none zero = ground arith
has_bit-none (suc i) = rw (zero_half) (has_bit-none i)
  where
    zero_half : 0 / 2 ≡ 0
    zero_half = omega arith

no_indices : (id : ℕ) → none ≡ find_bit id [] 0
unfolding find_bit
no_indices id = refl

no_items :
    (current : ℕ)
    → is_totals_member (some (grouping_id 0 [])) none (some current) ≡ first_total 0 []
unfolding is_totals_member first_total
no_items current = refl

nothing_before :
    (members : List Member)
    → or_else (find_bit 0 [] 0) (first_total 0 members) ≡ first_total 0 members
unfolding find_bit or_else
nothing_before members = refl

find_bit-zero : (indices : List ℕ) (n : ℕ) → find_bit 0 indices n ≡ none
unfolding find_bit
find_bit-zero indices zero = refl
find_bit-zero indices (suc n) = ground (arith, find_bit-zero indices n, has_bit-none n)

is_totals_member-find_bit :
    (id : ℕ) (indices : List ℕ) (current : ℕ)
    → is_totals_member (some id) (some indices) (some current)
      ≡ find_bit id indices (length indices)
unfolding is_totals_member
is_totals_member-find_bit zero indices current = sym (find_bit-zero indices (length indices))
is_totals_member-find_bit (suc id) [] current = ground (arith, no_indices (suc id))
is_totals_member-find_bit (suc id) (i ∷ indices) current = ground arith

-- For a tuple whose grouping id has a bit for each item with totals, the highest for the
-- first, `isTotalsMember` returns the index of the first item with totals that the tuple is a
-- total over, and Infinity when there is none.
pub is_totals_member-first_total :
    (members : List Member) (current : ℕ)
    → is_totals_member
        (some (grouping_id 0 members))
        (get_totals_items_indices (inclusions members))
        (some current)
      ≡ first_total 0 members
unfolding get_totals_items_indices inclusions
is_totals_member-first_total [] current = no_items current
is_totals_member-first_total (m ∷ members) current =
    is_totals_member-find_bit (grouping_id 0 (m ∷ members))
      (collect_indices [] 0 (inclusions (m ∷ members))) current
    ∙ find_bit-collect_indices (m ∷ members) 0 0 []
    ∙ nothing_before (m ∷ members)

-- Whatever the settings, the maximum width of a cell is 1 at least.
pub get_max_cell_width-positive :
    {V : Type 0} (truthy : V → Bool) (parse_int : V → Option ℤ) (settings : SettingsObject V)
    → 1 ≤ get_max_cell_width truthy parse_int settings
unfolding get_max_cell_width resolve clamp_width
get_max_cell_width-positive truthy parse_int settings = ground arith
