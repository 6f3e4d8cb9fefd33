-- ===== src/Sync/Hash.antt =====
-- `sha256Hex`, frontend/src/sync/hash.ts: the digest itself is the browser's.
pub mod Injective
use file_space.Base.{ℕ, String, map}
use file_space.Base.Effect.{Result, ok, err}
use file_space.Base.Text.{to_string, pad_start, join}
use file_space.Sync.Env.{Bytes, Env}

-- `byte.toString(16).padStart(2, '0')`
unfoldable pub hex_byte : ℕ → String
unfolding to_string pad_start
hex_byte byte = pad_start 2 "0" (to_string 16 byte)

-- `.map(…).join('')`
unfoldable pub hex : Bytes → String
unfolding hex_byte join
hex bytes = join "" (map hex_byte bytes)

abbrev map_result : (Bytes → String) → Result Bytes → Result String
map_result f (ok a) = ok (f a)
map_result f (err e) = err e

unfoldable pub sha256_hex : Env → Bytes → Result String
unfolding hex
sha256_hex env content = map_result hex (env.digest content)
