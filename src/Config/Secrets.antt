-- ===== src/Config/Secrets.antt =====
-- internal/platform/config/config.go: secrets from the environment and from files.
use vibe_alfa_gen.Prelude.{
  ◌-◌, Bool, true, false, not, ◌&&◌, ◌||◌, List, [], ◌∷◌, String, Option, none, some, ltb,
  if◌then◌else◌, ◌==◌, string_eq, nat_eq, text_eq, lookup, length, slice, take, contains, insert,
  get_or,
}
use vibe_alfa_gen.Domain.{Result, ok, err, other, ◌>>=◌}
use vibe_alfa_gen.Text.{Text}
use vibe_alfa_gen.Config.{SecurityConfig}

-- What the process meets around it: os.Getenv, filepath.IsAbs, whether os.Lstat finds a regular file,
-- os.ReadFile, and whether regexp.Compile accepts an expression.
pub record Host : Type 0 where
  pub getenv : Text → Text
  pub is_abs : Text → Bool
  pub is_regular : Text → Bool
  pub read_file : Text → Option Text
  pub compiles : Text → Bool

abbrev pub is_empty : Text → Bool
is_empty s = length s == 0

unfoldable pub expand_environment : Host → Text → Text
expand_environment host value =
    if ltb 3 (length value)
      && (take 2 value == (0x24 ∷ 0x7B ∷ []) && get_or value (length value - 1) 0 == 0x7D)
    then host.getenv (slice value 2 (length value - 1))
    else value

-- strings.TrimSuffix(s, "\n")
unfoldable pub trim_newline : Text → Text
trim_newline [] = []
trim_newline (c ∷ s) =
    let rest = c ∷ trim_newline s in if length s == 0 && c == 0x0A then [] else rest

abbrev pub single_line : Text → Result Text
single_line content = if is_empty content || contains content 0x0A then err other else ok content

abbrev pub read_line : Option Text → Result Text
read_line none = err other
read_line (some content) = single_line (trim_newline content)

unfoldable pub read_secret_file : Host → Text → Result Text
unfolding trim_newline
read_secret_file host path =
    if is_empty path || not (host.is_abs path)
    then err other
    else if not (host.is_regular path)
    then err other
    else read_line (host.read_file path)

-- resolveSecret: `none` where neither a literal nor a file was configured.
unfoldable pub resolve_secret : Host → Text → Text → Result (Option Text)
unfolding expand_environment
resolve_secret host literal file =
    let value = expand_environment host literal in
    if not (is_empty literal)
    then (if is_empty value then err other else ok (some value))
    else if not (is_empty file)
    then (read_secret_file host file >>= λ content. ok (some content))
    else ok none

-- Config.encryptionKeyAvailable
abbrev file_available : Host → Option Text → Result Bool
file_available host none = ok false
file_available host (some path) = read_secret_file host path >>= λ _. ok true

unfoldable pub encryption_key_available : Host → SecurityConfig → String → Result Bool
unfolding expand_environment
encryption_key_available host security id =
    let files = file_available host (lookup id security.encryption_key_files) in
    elim (lookup id security.encryption_keys) [
      | none ↦ files
      | some literal ↦ ok (not (is_empty (expand_environment host literal)))
    ]

-- Config.ResolvedEncryptionKeys
unfoldable pub expanded : Host → List (String × Text) → List (String × Text) → List (String × Text)
unfolding expand_environment
expanded host [] keys = keys
expanded host ((id, value) ∷ more) keys =
    expanded host more (insert id (expand_environment host value) keys)

unfoldable pub with_files :
    Host → List (String × Text) → List (String × Text) → Result (List (String × Text))
with_files host [] keys = ok keys
with_files host ((id, path) ∷ more) keys =
    read_secret_file host path >>= λ value. with_files host more (insert id value keys)

unfoldable pub resolved_encryption_keys : Host → SecurityConfig → Result (List (String × Text))
unfolding expanded with_files
resolved_encryption_keys host security =
    with_files host security.encryption_key_files (expanded host security.encryption_keys [])
