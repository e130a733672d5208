-- ===== src/Route/Text.antt =====
-- The tests on paths of pkg/route/tree.go.
use hertz_study.Base.{Bool, true, false, ◌&&◌, [], ◌∷◌, Bytes, ◌==◌, if◌then◌else◌}
use hertz_study.Route.Tree.{slash}

-- `len(s) >= len(p) && p == s[:len(p)]`
unfoldable pub starts_with : Bytes → Bytes → Bool
starts_with [] s = true
starts_with (x ∷ p) [] = false
starts_with (x ∷ p) (y ∷ s) = x == y && starts_with p s

-- The path up to and from the first slash, as `strings.Index` splits it.
unfoldable pub until_slash : Bytes → Bytes
until_slash [] = []
until_slash (c ∷ s) = if c == slash then [] else c ∷ until_slash s

unfoldable pub from_slash : Bytes → Bytes
from_slash [] = []
from_slash (c ∷ s) = if c == slash then c ∷ s else from_slash s

abbrev pub is_empty : Bytes → Bool
is_empty [] = true
is_empty (c ∷ s) = false

-- `search == "/"`
unfoldable pub is_only_slash : Bytes → Bool
is_only_slash [] = false
is_only_slash (c ∷ s) = c == slash && is_empty s

-- `len(p) == len(s)+1 && p[len(s)] == '/' && p[:len(s)] == s`
unfoldable pub nearly : Bytes → Bytes → Bool
nearly [] s = false
nearly (x ∷ p) [] = x == slash && is_empty p
nearly (x ∷ p) (y ∷ s) = x == y && nearly p s
