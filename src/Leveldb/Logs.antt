-- ===== src/Leveldb/Logs.antt =====
-- `inspectLevelDbLog` of src/structure_reader.cpp: the records of a log file, whole or in fragments. The loop
-- takes fuel, a unit for each byte and one more, and `none` says that it ran out.
use endstone_exchange.Common.{
  refl, inr, inl, Option-cases, [], suc, zero, ◌||◌, leb, ltb, ◌++◌, ◌<◌, ◌==◌, ◌%◌, arith, ◌&&◌,
  Bool, if◌then◌else◌, ◌≡◌, length, ◌+◌, ◌-◌, Option, List, ℕ, ◌∷◌, [], suc, zero, false, true,
  none, some,
}
use endstone_exchange.Bytes.{take, drop, from_le}
use endstone_exchange.Bytes.Readers.{length-drop}
use endstone_exchange.Leveldb.{Found, inspect_batch}

-- `MaxCaptureBytes`, `LevelDbLogBlockBytes`, `LevelDbLogHeaderBytes`
abbrev pub max_capture : ℕ
max_capture = 67108864

abbrev pub block_bytes : ℕ
block_bytes = 32768

abbrev pub header_bytes : ℕ
header_bytes = 7

pub record LogState : Type 0 where
  pub fragmented : List ℕ
  pub collecting : Bool
  pub found : Found

abbrev cleared : LogState → LogState
cleared s = record s { fragmented = []; collecting = false }

abbrev fits : LogState → List ℕ → Bool
fits s fragment = s.collecting && leb (length s.fragmented + length fragment) max_capture

-- A record by its type: a whole batch, the first fragment, one in the middle, the last one
unfoldable pub take_record : List ℕ → ℕ → List ℕ → LogState → LogState
unfolding inspect_batch
take_record wanted kind fragment s =
    if kind == 1
    then record s {
      fragmented = [];
      collecting = false;
      found = inspect_batch fragment wanted s.found;
    }
    else if kind == 2
    then record s { fragmented = fragment; collecting = true }
    else if kind == 3
    then if fits s fragment then record s { fragmented = s.fragmented ++ fragment } else cleared s
    else if kind == 4
    then if fits s fragment
      then record s {
        fragmented = [];
        collecting = false;
        found = inspect_batch (s.fragmented ++ fragment) wanted s.found;
      }
      else cleared s
    else cleared s

abbrev byte_at : ℕ → List ℕ → ℕ
byte_at zero [] = 0
byte_at zero (b ∷ bs) = b
byte_at (suc n) [] = 0
byte_at (suc n) (b ∷ bs) = byte_at n bs

-- What a round leaves to read, how far it went, and the state; `none` where the loop ends
abbrev pub Round : Type 0
Round = Option (ℕ × LogState)

-- A round at a place with `left` bytes of the block and at least a header to read
abbrev with_header : List ℕ → ℕ → List ℕ → LogState → Round
with_header wanted left rest s =
    let size = from_le (take 2 (drop 4 rest)) in
    let kind = byte_at 6 rest in
    if size == 0 && kind == 0
    then some (left, cleared s)
    else if ltb (left - header_bytes) size || ltb (length rest - header_bytes) size
    then none
    else some (header_bytes + size, take_record wanted kind (take size (drop header_bytes rest)) s)

unfoldable pub next_round : List ℕ → ℕ → List ℕ → LogState → Round
unfolding from_le
next_round wanted position rest s =
    let left = block_bytes - position % block_bytes in
    if ltb (length rest) header_bytes
    then none
    else if ltb left header_bytes
    then some (left, s)
    else with_header wanted left rest s

unfoldable pub log_loop : List ℕ → ℕ → ℕ → List ℕ → LogState → Option Found
log_loop wanted zero position rest s = none
log_loop wanted (suc fuel) position rest s = elim (next_round wanted position rest s) [
  | none ↦ some s.found
  | some (step, s') ↦ log_loop wanted fuel (position + step) (drop step rest) s'
]

-- An empty file has no records, and the loop would find none either.
unfoldable pub scan_log : List ℕ → List ℕ → Found → Option Found
unfolding log_loop
scan_log bytes wanted f =
    log_loop wanted (length bytes + 1) 0 bytes
      (record { fragmented = []; collecting = false; found = f })

next_round-advances :
    (wanted : List ℕ) (position : ℕ) (rest : List ℕ) (s s' : LogState) (step : ℕ)
    → next_round wanted position rest s ≡ some (step, s')
    → (0 < step) × (0 < length rest)
unfolding next_round
next_round-advances wanted position rest s s' step h = ground arith

log_loop_total :
    (wanted : List ℕ) (fuel position : ℕ) (rest : List ℕ) (s : LogState)
    → length rest < fuel
    → (f : Found) × (log_loop wanted fuel position rest s ≡ some f)
unfolding log_loop
log_loop_total wanted zero position rest s h = elim h [ ]
log_loop_total wanted (suc fuel) position rest s h =
    elim (Option-cases (next_round wanted position rest s)) [
      | inl e ↦ (s.found, rw (e, log_loop) refl)
      | inr ((step, s'), e) ↦
          let (far, some_left) = next_round-advances wanted position rest s s' step e in
          let (f, g) =
            log_loop_total wanted fuel (position + step) (drop step rest) s'
              (omega (arith, length-drop step rest)) in
          (f, rw (e, log_loop) g)
    ]

-- Whatever its bytes, a log file is read to an end.
pub scan_log_total :
    (bytes wanted : List ℕ) (f : Found) → (g : Found) × (scan_log bytes wanted f ≡ some g)
unfolding scan_log
scan_log_total bytes wanted f = log_loop_total wanted (length bytes + 1) 0 bytes _ (omega arith)
