-- ===== src/Buffer/Tests.antt =====
-- A buffer that has to move its bytes to the front, and the theorem at it.
use mini_rpc.Prelude.{◌≡◌, refl, [], ◌∷◌, arith}
use mini_rpc.Buffer.{Buffer, append, retrieve, ensure_writable, compact, copy}
use mini_rpc.Buffer.Contents.{IsValid, contents, append_lem}

-- Two bytes at the end of a block of four.
abbrev shifted : Buffer
shifted = record { storage = 1 ∷ 2 ∷ 3 ∷ 4 ∷ []; read_index = 2; write_index = 4 }

shifted-IsValid : IsValid shifted
shifted-IsValid = omega arith

moved_to_front :
    append (5 ∷ 6 ∷ []) shifted
    ≡ record { storage = 3 ∷ 4 ∷ 5 ∷ 6 ∷ []; read_index = 0; write_index = 4 }
unfolding append ensure_writable compact copy
moved_to_front = refl

grown : (append (5 ∷ 6 ∷ 7 ∷ []) shifted).storage ≡ 3 ∷ 4 ∷ 5 ∷ 6 ∷ 7 ∷ []
unfolding append ensure_writable compact copy
grown = refl

retrieved_all : (retrieve 2 shifted).read_index ≡ 0
unfolding retrieve
retrieved_all = refl

append_lem_example :
    IsValid (append (5 ∷ 6 ∷ []) shifted)
    × (contents (append (5 ∷ 6 ∷ []) shifted) ≡ 3 ∷ 4 ∷ 5 ∷ 6 ∷ [])
append_lem_example = append_lem (5 ∷ 6 ∷ []) shifted shifted-IsValid
