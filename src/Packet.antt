-- ===== src/Packet.antt =====
-- The writers of src/hologram_packet.cpp, and the packet by which a hologram is shown. A floating-point
-- number is an argument by its bit pattern.
use endstone_exchange.Common.{
  ◌+◌, ◌%◌, ◌==◌, if◌then◌else◌, length, ◌/◌, ◌++◌, Option, List, ℕ, ◌∷◌, [], suc, zero, none, some,
}
use endstone_exchange.Bytes.{le_bytes}

-- `appendVarUint`: the fuel is above the count of the bytes.
unfoldable pub var_uint : ℕ → ℕ → List ℕ
var_uint zero v = []
var_uint (suc f) v =
    let more = var_uint f (v / 128) in if v / 128 == 0 then v % 128 ∷ [] else (v % 128 + 128) ∷ more

unfoldable pub append_var_uint : ℕ → List ℕ
unfolding var_uint
append_var_uint v = var_uint (suc v) v

-- `appendFloat`
unfoldable pub append_float : ℕ → List ℕ
unfolding le_bytes
append_float bits = le_bytes 4 bits

-- `appendString`
unfoldable pub append_string : List ℕ → List ℕ
unfolding append_var_uint
append_string s = append_var_uint (length s) ++ s

-- `appendFloatMetadata`: the type of a floating-point value is 3.
unfoldable pub append_float_metadata : ℕ → ℕ → List ℕ
unfolding append_var_uint append_float
append_float_metadata key bits = append_var_uint key ++ (append_var_uint 3 ++ append_float bits)

abbrev pub name_entry : Option (List ℕ) → List ℕ
name_entry none = append_var_uint 4
name_entry (some name) =
    append_var_uint 5 ++ (append_var_uint 4 ++ (append_var_uint 4 ++ append_string name))

-- `hologramAppearancePacket`, with `HologramScale` as a bit pattern
unfoldable pub appearance_packet : ℕ → ℕ → Option (List ℕ) → List ℕ
unfolding append_var_uint append_string append_float_metadata
appearance_packet scale runtime_id name_tag =
    append_var_uint runtime_id
    ++ (name_entry name_tag
        ++ (append_float_metadata 38 scale
            ++ (append_float_metadata 53 0
                ++ (append_float_metadata 54 0
                    ++ (append_var_uint 81
                        ++ (append_var_uint 0
                            ++ ((1 ∷ [])
                                ++ (append_var_uint 0
                                    ++ (append_var_uint 0 ++ append_var_uint 0)))))))))
