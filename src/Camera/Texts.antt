-- ===== src/Camera/Texts.antt =====
-- What internal/camera/validation.go asks of texts: `strings.TrimSpace`, `strings.HasPrefix`,
-- `utf8.RuneCountInString` and the pattern of label keys.
use Prim.Native.Char.{Char, code}
use Prim.Native.String.{String, [], ◌∷◌, count}
use cam_server.Base.{ℕ, Bool, true, false, not, ◌&&◌, ◌||◌, leb, ◌==◌}

abbrev between : ℕ → ℕ → ℕ → Bool
between low high n = leb low n && leb n high

-- `unicode.IsSpace`
unfoldable pub is_space : Char → Bool
is_space c =
    let n = code c in
    between 9 13 n
    || n == 32
    || n == 133
    || n == 160
    || n == 5760
    || between 8192 8202 n
    || n == 8232
    || n == 8233
    || n == 8239
    || n == 8287
    || n == 12288

unfoldable pub starts_with_space : String → Bool
starts_with_space [] = false
starts_with_space (c ∷ s) = is_space c

unfoldable pub ends_with_space : String → Bool
ends_with_space [] = false
ends_with_space (c ∷ []) = is_space c
ends_with_space (c ∷ d ∷ s) = ends_with_space (d ∷ s)

-- `value == strings.TrimSpace(value)`
unfoldable pub trimmed : String → Bool
trimmed s = not (starts_with_space s) && not (ends_with_space s)

-- `strings.HasPrefix(s, "/")`
unfoldable pub has_slash : String → Bool
has_slash [] = false
has_slash (c ∷ s) = code c == 47

-- `[a-z0-9._-]`
unfoldable pub label_char : Char → Bool
label_char c =
    let n = code c in between 97 122 n || between 48 57 n || n == 46 || n == 95 || n == 45

unfoldable pub label_chars : String → Bool
label_chars [] = true
label_chars (c ∷ s) = label_char c && label_chars s

-- `labelKeyPattern.MatchString`
unfoldable pub label_key : String → Bool
label_key s = between 1 63 (count s) && label_chars s

-- `runeCount`
unfoldable pub rune_count : String → ℕ
rune_count s = count s
