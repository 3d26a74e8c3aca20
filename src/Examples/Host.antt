-- ===== src/Examples/Host.antt =====
-- Compounds of a concrete host, as src/nbt_codec.cpp and src/inventory_escrow.cpp use them.
use endstone_exchange.Common.{
  ◌∙◌, ◌&&◌, inr, inl, zero, refl, Bool-cases, suc, ap, false, if◌then◌else◌, true, some, [], ◌∷◌,
  none, ◌≡◌, ◌<◌, ℕ, Bool, Option, List, arith,
}
use mathlib.Core.Path.{ap₂}
use endstone_exchange.Config.{same_bytes}
use endstone_exchange.Nbt.{no_fields, field, string_tag, Kind, Tag, Fields, Host}
use endstone_exchange.Structure.{field_at}
use endstone_exchange.Inventory.{Compounds}

same_bytes_refl : (k : List ℕ) → same_bytes k k ≡ true
same_bytes_refl [] = refl
same_bytes_refl (c ∷ k) = ground (arith, same_bytes_refl k)

same_bytes-eq : (k l : List ℕ) → same_bytes k l ≡ true → k ≡ l
same_bytes-eq [] [] h = refl
same_bytes-eq [] (d ∷ l) h = cc
same_bytes-eq (c ∷ k) [] h = cc
same_bytes-eq (c ∷ k) (d ∷ l) h =
    ap₂ (λ x xs. x ∷ xs) (ground arith) (same_bytes-eq k l (ground arith))

-- The types by their numbers
abbrev pub number : Kind → ℕ
number Kind.end = 0
number Kind.byte = 1
number Kind.short = 2
number Kind.int = 3
number Kind.long = 4
number Kind.float = 5
number Kind.double = 6
number Kind.byte_array = 7
number Kind.string = 8
number Kind.list = 9
number Kind.compound = 10
number Kind.int_array = 11

abbrev nth_kind : ℕ → List Kind → Option Kind
nth_kind n [] = none
nth_kind zero (k ∷ ks) = some k
nth_kind (suc n) (k ∷ ks) = nth_kind n ks

abbrev kind : ℕ → Option Kind
kind n = nth_kind n (
    Kind.end ∷ Kind.byte ∷ Kind.short ∷ Kind.int ∷ Kind.long ∷ Kind.float ∷ Kind.double
    ∷ Kind.byte_array ∷ Kind.string ∷ Kind.list ∷ Kind.compound ∷ Kind.int_array ∷ [])

pub number-lt : (k : Kind) → number k < 256
number-lt Kind.end = omega arith
number-lt Kind.byte = omega arith
number-lt Kind.short = omega arith
number-lt Kind.int = omega arith
number-lt Kind.long = omega arith
number-lt Kind.float = omega arith
number-lt Kind.double = omega arith
number-lt Kind.byte_array = omega arith
number-lt Kind.string = omega arith
number-lt Kind.list = omega arith
number-lt Kind.compound = omega arith
number-lt Kind.int_array = omega arith

pub kind-number : (k : Kind) → kind (number k) ≡ some k
kind-number Kind.end = refl
kind-number Kind.byte = refl
kind-number Kind.short = refl
kind-number Kind.int = refl
kind-number Kind.long = refl
kind-number Kind.float = refl
kind-number Kind.double = refl
kind-number Kind.byte_array = refl
kind-number Kind.string = refl
kind-number Kind.list = refl
kind-number Kind.compound = refl
kind-number Kind.int_array = refl

-- A compound that keeps its entries in the order of their first insertion
abbrev insert : List ℕ → Tag → Fields → Fields
insert k t no_fields = field k t no_fields
insert k t (field l u fs) =
    let more = insert k t fs in if same_bytes l k then field l t fs else field l u more

abbrev pub host : Host
host = record {
  number = number;
  kind = kind;
  insert_or_assign = insert;
  number-lt = number-lt;
  kind-number = kind-number;
}

pub field_at-insert : (k : List ℕ) (t : Tag) (fs : Fields) → field_at k (insert k t fs) ≡ some t
unfolding field_at
field_at-insert k t no_fields = rw (same_bytes_refl k) refl
field_at-insert k t (field l u fs) = elim (Bool-cases (same_bytes l k)) [
  | inl e ↦ rw e (rw e refl)
  | inr e ↦ rw e (rw e (field_at-insert k t fs))
]

-- Compounds of texts are compared, other ones are taken as different.
abbrev text_of : Tag → Option (List ℕ)
text_of (string_tag s) = some s
text_of t = none

abbrev same_text : Option (List ℕ) → Option (List ℕ) → Bool
same_text (some s) (some u) = same_bytes s u
same_text o p = false

abbrev same : Fields → Fields → Bool
same no_fields no_fields = true
same no_fields (field l u gs) = false
same (field k t fs) no_fields = false
same (field k t fs) (field l u gs) =
    same_bytes k l && same_text (text_of t) (text_of u) && same fs gs

same_text-eq : (t u : Tag) → same_text (text_of t) (text_of u) ≡ true → t ≡ u
same_text-eq (string_tag s) (string_tag u) h = ap string_tag (same_bytes-eq s u h)
same_text-eq t u h = cc

pub same-eq : (a b : Fields) → same a b ≡ true → a ≡ b
same-eq no_fields no_fields h = refl
same-eq no_fields (field l u gs) h = cc
same-eq (field k t fs) no_fields h = cc
same-eq (field k t fs) (field l u gs) h =
    ap (λ x. field x t fs) (same_bytes-eq k l (ground arith))
    ∙ ap₂ (field l) (same_text-eq t u (ground arith)) (same-eq fs gs (ground arith))

abbrev erase : List ℕ → Fields → Fields
erase k no_fields = no_fields
erase k (field l u fs) = let more = erase k fs in if same_bytes l k then fs else field l u more

abbrev pub compounds : Compounds
compounds = record {
  host = host;
  erase = erase;
  same = same;
  same-eq = same-eq;
  field_at-insert = field_at-insert;
}
