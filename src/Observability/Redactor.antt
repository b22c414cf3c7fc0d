-- ===== src/Observability/Redactor.antt =====
-- observability/redactor.py: what leaves the process loses its secrets. The engine of regular
-- expressions is a parameter.
use ai_dev_swarm.Common.{
  ◌&&◌, List, [], ◌∷◌, ◌++◌, Option, none, some, Text, text, any, contains, if◌then◌else◌,
}
use ai_dev_swarm.Slugs.{Characters, lower_text}

-- `re.compile`, which refuses a bad pattern, and the substitution by a compiled one.
pub record Regexes : Type 0 where
  pub compile : (pattern : Text) → Option ((replacement subject : Text) → Text)

-- `_KIND_NEEDLES`
abbrev pub kind_needles : List (List Text × Text)
kind_needles =
    (text "sk-ant" ∷ [], text "anthropic")
    ∷ (text "ghp_" ∷ text "github_pat" ∷ [], text "github")
    ∷ (text "xoxb" ∷ [], text "slack")
    ∷ (text "eyj" ∷ [], text "jwt")
    ∷ (text "akia" ∷ text "aws_secret" ∷ [], text "aws")
    ∷ (text "bearer" ∷ [], text "bearer")
    ∷ (text "://" ∷ [], text "dsn")
    ∷ (text "password" ∷ [], text "password")
    ∷ (text "sk-" ∷ [], text "openai")
    ∷ []

abbrev pub generic_kind : Text → Text
generic_kind p =
    if contains (text ":") p && contains (text "0-9") p then text "telegram" else text "secret"

-- The loop of `_kind_from_pattern`, on the lowered pattern.
unfoldable pub kind_by : Text → List (List Text × Text) → Text
kind_by p [] = generic_kind p
kind_by p ((needles, kind) ∷ rest) =
    let other = kind_by p rest in if any (λ n. contains n p) needles then kind else other

unfoldable pub kind_from_pattern : Characters → Text → Text
kind_from_pattern ch pat = kind_by (lower_text ch pat) kind_needles

-- One entry of `_patterns`: the substitution and its replacement, put together.
abbrev pub compiled :
    Characters
    → Text
    → Option ((replacement subject : Text) → Text)
    → List (Text → Text)
    → List (Text → Text)
compiled ch raw none rest = rest
compiled ch raw (some sub) rest =
    sub (text "[REDACTED:" ++ (kind_from_pattern ch raw ++ text "]")) ∷ rest

-- `SecretRedactor.__init__`
unfoldable pub patterns_of : Characters → Regexes → List Text → List (Text → Text)
patterns_of ch rx [] = []
patterns_of ch rx (raw ∷ raws) = compiled ch raw (rx.compile raw) (patterns_of ch rx raws)

-- `redact`, of a text
unfoldable pub redact : List (Text → Text) → Text → Text
redact [] s = s
redact (sub ∷ subs) s = redact subs (sub s)
