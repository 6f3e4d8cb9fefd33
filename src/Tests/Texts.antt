-- ===== src/Tests/Texts.antt =====
-- The text functions at inputs whose results are known from JavaScript.
use Prim.Native.String.{count}
use file_space.Sync.Hash.{hex}
use file_space.Sync.Hash.Injective.{IsByte, hex_injective}
use file_space.Base.{ℕ, ◌*◌, List, All, length, arith, ◌≡◌, refl, some, none, [], ◌∷◌}
use file_space.Base.Effect.{ok}
use file_space.Base.Text.{
  to_string, pad_start, join, sort, last_index_of, slice_to, slice_from, to_iso_string,
}

iso_date : to_iso_string 1789117323045 ≡ ok "2026-09-11T09:02:03.045Z"
unfolding to_iso_string
iso_date = refl

iso_epoch : to_iso_string 0 ≡ ok "1970-01-01T00:00:00.000Z"
unfolding to_iso_string
iso_epoch = refl

leap_day : to_iso_string 1709164800000 ≡ ok "2024-02-29T00:00:00.000Z"
unfolding to_iso_string
leap_day = refl

sorted : sort ("b" ∷ "a" ∷ "ab" ∷ []) ≡ "a" ∷ "ab" ∷ "b" ∷ []
unfolding sort
sorted = refl

sliced :
    (last_index_of b'.' "a.b.c" ≡ some 3)
    × (last_index_of b'.' "abc" ≡ none)
    × (slice_to 3 "a.b.c" ≡ "a.b")
    × (slice_from 4 "a.b.c" ≡ "c")
unfolding last_index_of slice_to slice_from
sliced = (refl, refl, refl, refl)

written :
    (to_string 16 255 ≡ "ff")
    × (to_string 10 0 ≡ "0")
    × (pad_start 2 "0" "7" ≡ "07")
    × (join ", " ("a" ∷ "b" ∷ []) ≡ "a, b")
unfolding to_string pad_start join
written = (refl, refl, refl, refl)

abbrev digest : List ℕ
digest = 10 ∷ 255 ∷ []

are_bytes : All IsByte digest
are_bytes = (omega arith, (omega arith, tt))

hex_test : hex digest ≡ "0aff"
unfolding hex
hex_test = refl

hex_injective_example : (digest ≡ digest) × (count (hex digest) ≡ 2 * length digest)
hex_injective_example = hex_injective digest digest are_bytes are_bytes refl
