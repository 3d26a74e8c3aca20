-- ===== src/Structure/Total.antt =====
-- The fuel of the searches in the bytes of log files, in src/structure_reader.cpp.
use endstone_exchange.Structure.Parts.{payloads-Within, read_name-Within, some_bytes, switch-Within}
use endstone_exchange.Leveldb.Logs.{scan_log_total}
use endstone_exchange.Leveldb.{Found}
use endstone_exchange.Nbt.{field, item}
use endstone_exchange.Common.{
  false, true, refl, ◌∙◌, ap, inr, Bool, ◌≡◌, inl, false, none, Bool-cases, some, Option, ◌≢◌, ◌==◌,
  [], ◌∷◌, zero, length, ◌+◌, arith, List, ◌<◌, ◌*◌, ltb, suc, if◌then◌else◌, ℕ,
}
use endstone_exchange.Bytes.{
  structure_missing, rejected, bind, Parsed, parsed, out_of_fuel, root_not_compound, ◌>>=◌, pure,
  reject, integral,
}
use endstone_exchange.Bytes.Readers.{
  Ends, Within, Within-bind, Within-if, Within-integral, Within-pure, Within-weaken,
}
use endstone_exchange.Nbt.{compound_tag, no_fields, list_tag, no_items, Tag, Items, Fields, Host}
use endstone_exchange.Structure.{
  or_else, structure_key, captured, FrameItem, scan_all, at_depth, Search, read_name, payloads,
  next_field, payload, entries, root, as_compound, find_item, find_in_items, find_in_fields,
  read_item_frame, read_from_logs,
}

module _ (h : Host) where
  mutual
    unfolding payload

    payload-Within : (f kind limit : ℕ) → 2 * limit + 1 < f → Within 0 limit (payload h f kind)
    payload-Within zero kind limit q = absurd (omega arith)
    payload-Within (suc f) kind limit q =
        switch-Within kind limit (payloads (payload h f) (entries h f no_fields)) (
          payloads-Within (payload h f) (entries h f no_fields) limit
            (λ kind' l e. payload-Within f kind' l (omega arith))
            (entries-Within f no_fields limit (omega arith)))

    entries-Within :
        (f : ℕ) (acc : Fields) (limit : ℕ) → 2 * limit < f → Within 0 limit (entries h f acc)
    entries-Within zero acc limit q = absurd (omega arith)
    entries-Within (suc f) acc limit q = Within-weaken 1 limit _ (
        Within-bind 1 limit (integral 1) (λ kind. next_field h (entries h f) (payload h f) acc kind)
          (Within-integral 1 limit)
          (λ kind l e.
            Within-if 0 l (kind == 0) (pure acc)
              (do k ← read_name; t ← payload h f kind; entries h f (h.insert_or_assign k t acc))
              (Within-pure l acc)
              (Within-bind 0 l read_name
                (λ k. do t ← payload h f kind; entries h f (h.insert_or_assign k t acc))
                (read_name-Within l)
                (λ k l' e'.
                  Within-bind 0 l' (payload h f kind)
                    (λ t. entries h f (h.insert_or_assign k t acc))
                    (payload-Within f kind l' (omega arith))
                    (λ t l'' e''.
                      entries-Within f (h.insert_or_assign k t acc) l'' (omega arith))))))

as_compound-Within : (limit : ℕ) (t : Tag) → Within 0 limit (as_compound t)
as_compound-Within limit (compound_tag fs) = Within-pure limit fs
as_compound-Within limit t = λ bs b. tt

root-Ends : (h : Host) (bs : List ℕ) → Ends 0 (length bs) (root h bs)
unfolding root
root-Ends h bs =
    Within-bind 0 (length bs) (integral 1)
      (λ kind.
        if kind == 10
        then read_name >>= (λ _. payload h (2 * length bs + 2) kind >>= as_compound)
        else reject root_not_compound)
      (some_bytes 1 (length bs))
      (λ kind l e.
        Within-if 0 l (kind == 10)
          (read_name >>= (λ _. payload h (2 * length bs + 2) kind >>= as_compound))
          (reject root_not_compound)
          (Within-bind 0 l read_name (λ _. payload h (2 * length bs + 2) kind >>= as_compound)
            (read_name-Within l)
            (λ _ l' e'.
              Within-bind 0 l' (payload h (2 * length bs + 2) kind) as_compound
                (payload-Within h (2 * length bs + 2) kind l' (omega arith))
                (λ t l'' e''. as_compound-Within l'' t)))
          (λ bs b. tt))
      bs (omega arith)

-- A search ends with an item, with nothing, or with an exception.
or_else-ends :
    (r next : Search) → r ≢ out_of_fuel → next ≢ out_of_fuel → or_else r next ≢ out_of_fuel
or_else-ends (parsed none) next h k = k
or_else-ends (parsed (some i)) next h k = h
or_else-ends (rejected e) next h k = h
or_else-ends out_of_fuel next h k = h

at_depth-ends : (depth : ℕ) (r : Search) → r ≢ out_of_fuel → at_depth depth r ≢ out_of_fuel
at_depth-ends depth r h = elim (Bool-cases (ltb 32 depth)) [
  | inl e ↦ rw e (λ q. cc)
  | inr e ↦ rw e h
]

found_or-ends :
    (o : Option FrameItem) (next : Search)
    → next ≢ out_of_fuel
    → elim o as (λ _. Search) [ some i ↦ parsed (some i) | none ↦ next ] ≢ out_of_fuel
found_or-ends none next h = h
found_or-ends (some i) next h = λ q. cc

nothing : (depth : ℕ) → at_depth depth (parsed none) ≢ out_of_fuel
nothing depth = at_depth-ends depth (parsed none) (λ q. cc)

mutual
  unfolding find_item

  find_item-ends : (t : Tag) (depth : ℕ) → find_item t depth ≢ out_of_fuel
  find_item-ends (compound_tag fs) depth =
      at_depth-ends depth _ (found_or-ends _ _ (find_in_fields-ends fs (depth + 1)))
  find_item-ends (list_tag ts) depth = at_depth-ends depth _ (find_in_items-ends ts (depth + 1))
  find_item-ends t depth = nothing depth

  find_in_items-ends : (ts : Items) (depth : ℕ) → find_in_items ts depth ≢ out_of_fuel
  find_in_items-ends no_items depth = λ q. cc
  find_in_items-ends (item t ts) depth =
      or_else-ends _ _ (find_item-ends t depth) (find_in_items-ends ts depth)

  find_in_fields-ends : (fs : Fields) (depth : ℕ) → find_in_fields fs depth ≢ out_of_fuel
  find_in_fields-ends no_fields depth = λ q. cc
  find_in_fields-ends (field k t fs) depth =
      or_else-ends _ _ (find_item-ends t depth) (find_in_fields-ends fs depth)

read_item_frame-ends : (h : Host) (bytes : List ℕ) → read_item_frame h bytes ≢ out_of_fuel
unfolding read_item_frame
read_item_frame-ends h bytes = go (root h bytes) (root-Ends h bytes)
  where
    go :
        (r : Parsed (Fields × List ℕ))
        → Ends 0 (length bytes) r
        → bind r (λ (fs, rest). find_item (compound_tag fs) 0) ≢ out_of_fuel
    go (parsed (fs, rest)) e = find_item-ends (compound_tag fs) 0
    go (rejected x) e = λ q. cc
    go out_of_fuel e = absurd e

scan_all_total :
    (wanted : List ℕ) (logs : List (List ℕ)) (f : Found)
    → (g : Found) × (scan_all wanted logs (some f) ≡ some g)
scan_all_total wanted [] f = (f, refl)
scan_all_total wanted (log ∷ logs) f =
    let (g, e) = scan_log_total log wanted f in
    let (k, e') = scan_all_total wanted logs g in (k, ap (scan_all wanted logs) e ∙ e')

captured-ends : (h : Host) (f : Found) → captured h (some f) ≢ out_of_fuel
captured-ends h f = go f.seen f.value
  where
    go :
        (seen : Bool) (value : Option (List ℕ))
        → (if seen
            then elim value as (λ _. Search) [
              | some bytes ↦ read_item_frame h bytes
              | none ↦ rejected structure_missing
            ]
            else rejected structure_missing)
          ≢ out_of_fuel
    go true (some bytes) = read_item_frame-ends h bytes
    go true none = λ q. cc
    go false value = λ q. cc

-- Whatever stands in the log files, the search for the item of a frame ends: with an item, with nothing, or with an exception.
pub read_from_logs_total :
    (h : Host) (logs : List (List ℕ)) (name : List ℕ) → read_from_logs h logs name ≢ out_of_fuel
unfolding read_from_logs
read_from_logs_total h logs name =
    let (g, e) = scan_all_total (structure_key name) logs (record { value = none; seen = false }) in
    rw e (captured-ends h g)
