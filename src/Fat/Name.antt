-- ===== src/Fat/Name.antt =====
-- Names in the 8.3 form, kernel/fat.c. A name is the list of its bytes, without the NUL.
use nova_kernel.Prelude.{
  ℕ, zero, suc, ◌-◌, ◌+◌, Bool, true, false, ◌&&◌, leb, ◌==◌, if◌then◌else◌, List, [], ◌∷◌, ◌++◌,
  map, take, length, replicate,
}
use nova_kernel.Fat.Disk.{Sector}

abbrev pub upper : ℕ → ℕ
upper c = if leb b'a' c && leb c b'z' then c - 32 else c

-- The first loop: at most `k` characters before a dot, and what is left.
unfoldable pub split_base : ℕ → List ℕ → List ℕ × List ℕ
split_base zero s = ([], s)
split_base (suc k) [] = ([], [])
split_base (suc k) (c ∷ cs) =
    let rest = split_base k cs in if c == b'.' then ([], c ∷ cs) else (upper c ∷ rest.0, rest.1)

-- The second loop, after the dot.
unfoldable pub extension : List ℕ → List ℕ
extension [] = []
extension (c ∷ cs) = if c == b'.' then map upper (take 3 cs) else []

-- padded with spaces to `n` bytes
unfoldable pub pad : ℕ → List ℕ → List ℕ
pad n s = s ++ replicate (n - length s) 32

unfoldable pub norm_name : List ℕ → List ℕ
norm_name s = let (base, rest) = split_base 8 s in pad 8 base ++ pad 3 (extension rest)

-- `dir_match` on the entry at `at`
unfoldable pub dir_match : Sector → ℕ → List ℕ → Bool
dir_match b at [] = true
dir_match b at (c ∷ cs) = let rest = dir_match b (at + 1) cs in if b at == c then rest else false
