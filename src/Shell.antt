-- ===== src/Shell.antt =====
-- kernel/shell.c: the glob matcher, over texts as lists of bytes up to the null.
pub mod Glob
mod Tests
use ali_os.Base.{ℕ, Bool, true, false, ◌&&◌, ◌||◌, List, [], ◌∷◌, if◌then◌else◌, ◌==◌}

abbrev pub star : ℕ
star = b'*'

abbrev pub question : ℕ
question = b'?'

abbrev pub is_empty : List ℕ → Bool
is_empty [] = true
is_empty (c ∷ s) = false

-- The loop that skips stars at the end of the text, and the test behind it.
unfoldable pub only_stars : List ℕ → Bool
only_stars [] = true
only_stars (b ∷ p) = (b == star) && only_stars p

-- The loop behind a star: the rest of the pattern is tried at each position but the last, empty one.
unfoldable pub some_suffix : (List ℕ → Bool) → List ℕ → Bool
some_suffix f [] = false
some_suffix f (c ∷ s) = f (c ∷ s) || some_suffix f s

unfoldable pub sh_glob : List ℕ → List ℕ → Bool
unfolding only_stars some_suffix
sh_glob [] s = is_empty s
sh_glob (b ∷ p) [] = only_stars (b ∷ p)
sh_glob (b ∷ p) (c ∷ s) =
    if b == star
    then is_empty p || some_suffix (sh_glob p) (c ∷ s)
    else ((b == question) || (b == c)) && sh_glob p s
