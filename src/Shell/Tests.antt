-- ===== src/Shell/Tests.antt =====
-- Tests of kernel/shell.c's glob matcher, and its theorem at a concrete input.
use ali_os.Base.{ℕ, ◌≡◌, ◌↔◌, refl, true, false, List, [], ◌∷◌}
use ali_os.Shell.{sh_glob}
use ali_os.Shell.Glob.{Match, sh_glob_lem}

-- `"*.?"` and `"ab.c"`
abbrev pattern : List ℕ
pattern = b'*' ∷ b'.' ∷ b'?' ∷ []

abbrev text : List ℕ
text = b'a' ∷ b'b' ∷ b'.' ∷ b'c' ∷ []

glob_yes : sh_glob pattern text ≡ true
unfolding sh_glob
glob_yes = refl

glob_no : sh_glob pattern (b'a' ∷ b'.' ∷ []) ≡ false
unfolding sh_glob
glob_no = refl

glob_two_stars : sh_glob (b'a' ∷ b'*' ∷ b'*' ∷ []) (b'a' ∷ []) ≡ true
unfolding sh_glob
glob_two_stars = refl

sh_glob_lem_example : (sh_glob pattern text ≡ true) ↔ Match pattern text
sh_glob_lem_example = sh_glob_lem pattern text
