-- ===== src/Path/Tests.antt =====
-- Tests of kernel/path.h's model, and its theorems at concrete inputs.
use ali_os.Base.{◌≡◌, ◌<◌, ◌≤◌, ℕ, refl, List, [], ◌∷◌, length, arith}
use ali_os.Path.{path_resolve}
use ali_os.Path.Resolve.{path_resolve_again, length-path_resolve}

-- `"/home"`, `"../b/./l"` and `"/b/l"`
abbrev home : List ℕ
home = b'/' ∷ b'h' ∷ b'o' ∷ b'm' ∷ b'e' ∷ []

abbrev up_bin : List ℕ
up_bin = b'.' ∷ b'.' ∷ b'/' ∷ b'b' ∷ b'/' ∷ b'.' ∷ b'/' ∷ b'l' ∷ []

abbrev b_l : List ℕ
b_l = b'/' ∷ b'b' ∷ b'/' ∷ b'l' ∷ []

resolve_up_bin : path_resolve home up_bin ≡ b_l
unfolding path_resolve
resolve_up_bin = refl

length_up_bin : length (path_resolve home up_bin) < 63
length_up_bin = rw resolve_up_bin (omega arith)

path_resolve_again_example : path_resolve home (path_resolve home up_bin) ≡ path_resolve home up_bin
path_resolve_again_example = path_resolve_again home home up_bin length_up_bin

length-path_resolve_example : length (path_resolve home up_bin) ≤ 79
length-path_resolve_example = length-path_resolve home up_bin
