-- ===== src/Protocol/Modules.antt =====
-- internal/protocol/modules.go: module definitions and the check of their paths.
use Prim.Native.Char.{code}
use text.Mathlib.Text.{starts_with}
use dev_cadence.Prelude.{
  ℕ, String, ◌==◌, Bool, not, ◌&&◌, ◌||◌, List, leb, ◌≡◌, refl, false, true, if◌then◌else◌,
}
use dev_cadence.Errs.{Result, refuse, ◌>>◌, invalid_argument}

pub record ModuleDefinition : Type 0 where
  pub id : String
  pub path : String
  pub manifest_path : String
  pub language : String
  pub dependencies : List String
  pub properties : List (String × String)

-- `unicode.IsSpace`.
unfoldable pub is_space : ℕ → Bool
is_space c =
    (leb 9 c && leb c 13)
    || (leb 32 c && leb c 32)
    || (leb 0x85 c && leb c 0x85)
    || (leb 0xa0 c && leb c 0xa0)
    || (leb 0x1680 c && leb c 0x1680)
    || (leb 0x2000 c && leb c 0x200a)
    || (leb 0x2028 c && leb c 0x2029)
    || (leb 0x202f c && leb c 0x202f)
    || (leb 0x205f c && leb c 0x205f)
    || (leb 0x3000 c && leb c 0x3000)

unfoldable pub trim_left : String → String
unfolding is_space
trim_left String.[] = String.[]
trim_left (String.◌∷◌ c s) =
    let rest = trim_left s in if is_space (code c) then rest else String.◌∷◌ c s

unfoldable pub trim_right : String → String
unfolding is_space
trim_right String.[] = String.[]
trim_right (String.◌∷◌ c s) =
    let rest = trim_right s in
    if is_space (code c) && (rest == "") then String.[] else String.◌∷◌ c rest

-- `strings.ReplaceAll(p, "\\", "/")`
unfoldable pub to_slashes : String → String
to_slashes String.[] = String.[]
to_slashes (String.◌∷◌ c s) =
    let rest = to_slashes s in
    String.◌∷◌ (if leb 92 (code c) && leb (code c) 92 then "/" else c) rest

-- `strings.TrimPrefix(p, "./")`
unfoldable pub trim_dot_slash : String → String
trim_dot_slash (String.◌∷◌ c (String.◌∷◌ d s)) =
    if (String.◌∷◌ c (String.◌∷◌ d String.[])) == "./" then s else String.◌∷◌ c (String.◌∷◌ d s)
trim_dot_slash s = s

unfoldable pub clean_relative_path : String → String
unfolding trim_left trim_right to_slashes trim_dot_slash
clean_relative_path p = trim_dot_slash (to_slashes (trim_right (trim_left p)))

unfoldable pub outside : String → Bool
unfolding clean_relative_path
outside p =
    let cleaned = clean_relative_path p in
    (cleaned == "") || starts_with cleaned ".." || starts_with cleaned "/"

unfoldable pub module_validate : ModuleDefinition → Result (Unit {0})
unfolding outside
module_validate m = do
  refuse (m.id == "") invalid_argument
  refuse (m.path == "") invalid_argument
  refuse (outside m.path) invalid_argument
  refuse (not (m.manifest_path == "") && outside m.manifest_path) invalid_argument

outside_tests :
    (outside "  ./internal\\state " ≡ false)
    × (outside "../x" ≡ true)
    × (outside "/etc" ≡ true)
    × (outside "./" ≡ true)
unfolding outside
outside_tests = (refl, refl, refl, refl)
