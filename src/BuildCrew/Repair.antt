-- ===== src/BuildCrew/Repair.antt =====
-- What the developer is told of a failed CI run.
use ai_dev_swarm.Common.{
  ℕ, zero, suc, ◌-◌, ◌≤◌, ◌<◌, ◌≡◌, ◌≢◌, refl, ◌∙◌, sym, ap, ltb, Bool, true, false, not, ◌||◌, [],
  ◌∷◌, ◌++◌, some, Text, text, length, take, drop, take-append-drop, arith, Bool-cases, inl, inr,
}
use mathlib.Core.List.{reverse, reverse_aux, append-nil}
use ai_dev_swarm.Slugs.{Characters, strip_spaces, strip_spaces_left}
use ai_dev_swarm.Steering.{blank}
use ai_dev_swarm.Schemas.Milestone.{Milestone}
use ai_dev_swarm.Sandbox.{SandboxRun, str_int}
use ai_dev_swarm.Sdk.Invocation.{SdkDeps, repair_intro, task_prompt}
use ai_dev_swarm.BuildCrew.{or_words, exit_text, blob, tail_of, ci_repair_context}

-- The text has a character that is not white space.
pub shows : Characters → Text → Bool
shows ch [] = false
shows ch (c ∷ t) = not (ch.is_space c) || shows ch t

-- What a run has to say: what can be seen of its output, or else its exit code.
pub data Reported (ch : Characters) (ci : SandboxRun) : Text → Type 0 where
  nothing :
      shows ch ci.stdout ≡ false
      → shows ch ci.stderr ≡ false
      → Reported ch ci (text "exit_code=" ++ str_int ci.exit_code)
  output :
      shows ch ci.stdout ≡ true
      → shows ch ci.stderr ≡ false
      → Reported ch ci (strip_spaces ch ci.stdout)
  errors :
      shows ch ci.stdout ≡ false
      → shows ch ci.stderr ≡ true
      → Reported ch ci (strip_spaces ch ci.stderr)
  both :
      shows ch ci.stdout ≡ true
      → shows ch ci.stderr ≡ true
      → Reported ch ci (strip_spaces ch (ci.stdout ++ (text "\n" ++ ci.stderr)))

-- `context` is `t`, or a mark and the last 3,000 characters of `t`, if it is longer than that.
pub data Ends (t : Text) : Text → Type 0 where
  whole : length t ≤ 3000 → Ends t t
  tail :
      (front last : Text)
      → t ≡ front ++ last
      → 3000 < length t
      → length last ≡ 3000
      → Ends t (text "…(truncated)…\n" ++ last)

module _ (ch : Characters) where
  shows-append : (s t : Text) → shows ch (s ++ t) ≡ (shows ch s || shows ch t)
  unfolding shows
  shows-append [] t = refl
  shows-append (c ∷ s) t = ground (arith, shows-append s t)

  shows-strip_left : (t : Text) → shows ch (strip_spaces_left ch t) ≡ shows ch t
  unfolding shows strip_spaces_left
  shows-strip_left [] = refl
  shows-strip_left (c ∷ t) = ground (arith, shows-strip_left t)

  shows-reverse_aux : (s t : Text) → shows ch (reverse_aux s t) ≡ (shows ch s || shows ch t)
  unfolding shows
  shows-reverse_aux [] t = refl
  shows-reverse_aux (c ∷ s) t = ground (arith, shows-reverse_aux s (c ∷ t))

  shows-reverse : (s : Text) → shows ch (reverse s) ≡ shows ch s
  unfolding shows
  shows-reverse s = ground (arith, shows-reverse_aux s [])

  shows-strip_spaces : (t : Text) → shows ch (strip_spaces ch t) ≡ shows ch t
  unfolding strip_spaces
  shows-strip_spaces t =
      shows-reverse (strip_spaces_left ch (reverse (strip_spaces_left ch t)))
      ∙ (shows-strip_left (reverse (strip_spaces_left ch t))
          ∙ (shows-reverse (strip_spaces_left ch t) ∙ shows-strip_left t))

  strip_spaces_left-Unseen : (t : Text) → shows ch t ≡ false → strip_spaces_left ch t ≡ []
  unfolding shows strip_spaces_left
  strip_spaces_left-Unseen [] h = refl
  strip_spaces_left-Unseen (c ∷ t) h = ground (arith, strip_spaces_left-Unseen t)

  blank-Unseen : (t : Text) → shows ch t ≡ false → blank (strip_spaces ch t) ≡ true
  unfolding strip_spaces strip_spaces_left
  blank-Unseen t h = rw (strip_spaces_left-Unseen t h) refl

  not_blank : (t : Text) → shows ch t ≡ true → blank t ≡ false
  unfolding shows
  not_blank [] h = cc
  not_blank (c ∷ t) h = refl

  or_words-Seen : (s t : Text) → shows ch s ≡ true → or_words s t ≡ s
  unfolding shows
  or_words-Seen [] t h = cc
  or_words-Seen (c ∷ s) t h = refl

  not_blank-strip : (t : Text) → shows ch t ≡ true → blank (strip_spaces ch t) ≡ false
  not_blank-strip t h = not_blank (strip_spaces ch t) (shows-strip_spaces t ∙ h)

  kept : (s t : Text) → shows ch s ≡ true → or_words (strip_spaces ch s) t ≡ strip_spaces ch s
  kept s t h = or_words-Seen (strip_spaces ch s) t (shows-strip_spaces s ∙ h)

  strip_spaces-empty : strip_spaces ch [] ≡ []
  unfolding strip_spaces strip_spaces_left
  strip_spaces-empty = refl

  blob-Reported : (ci : SandboxRun) → Reported ch ci (blob ch ci)
  blob-Reported ci = elim (Bool-cases (shows ch ci.stdout)) [
    | inl o ↦ elim (Bool-cases (shows ch ci.stderr)) [
      | inl e ↦
          rw
            (
              not_blank-strip ci.stdout o,
              not_blank-strip ci.stderr e,
              append-nil ci.stderr,
              kept (ci.stdout ++ (text "\n" ++ ci.stderr)) (exit_text ci)
                  (shows-append ci.stdout _ ∙ ap (λ b. b || shows ch (text "\n" ++ ci.stderr)) o),
            )
            (both o e)
      | inr e ↦
          rw
            (
              not_blank-strip ci.stdout o,
              blank-Unseen ci.stderr e,
              append-nil ci.stdout,
              kept ci.stdout (exit_text ci) o,
            )
            (output o e)
    ]
    | inr o ↦ elim (Bool-cases (shows ch ci.stderr)) [
      | inl e ↦
          rw
            (
              blank-Unseen ci.stdout o,
              not_blank-strip ci.stderr e,
              append-nil ci.stderr,
              kept ci.stderr (exit_text ci) e,
            )
            (errors o e)
      | inr e ↦
          rw (blank-Unseen ci.stdout o, blank-Unseen ci.stderr e, strip_spaces-empty) (nothing o e)
    ]
  ]

  or_words-Full : (s t : Text) → t ≢ [] → or_words s t ≢ []
  or_words-Full [] t h = h
  or_words-Full (c ∷ s) t h = λ e. cc

  tail_of-Full : (limit : ℕ) (t : Text) → t ≢ [] → tail_of limit t ≢ []
  tail_of-Full limit t h = elim (Bool-cases (ltb limit (length t))) [
    | inl e ↦ rw e (λ k. cc)
    | inr e ↦ rw e h
  ]

length-drop : (n : ℕ) (t : Text) → length (drop n t) ≡ length t - n
length-drop zero t = omega arith
length-drop (suc n) [] = omega arith
length-drop (suc n) (c ∷ t) = omega (arith, length-drop n t)

tail_of-Ends : (t : Text) → Ends t (tail_of 3000 t)
tail_of-Ends t = elim (Bool-cases (ltb 3000 (length t))) [
  | inl e ↦ rw e (
      tail (take (length t - 3000) t) (drop (length t - 3000) t)
        (sym (take-append-drop (length t - 3000) t)) (ground arith)
        (ground (arith, length-drop (length t - 3000) t)))
  | inr e ↦ rw e (whole (ground arith))
]

-- The prompt of a repair gives the whole context.
prompt-context :
    (d : SdkDeps) (m : Milestone) (resumed : Bool) (context : Text)
    → context ≢ []
    → task_prompt d m (some context) resumed
      ≡ repair_intro ++ (context ++ (text "\n\nMilestone for reference: " ++ m.title))
unfolding task_prompt
prompt-context d m resumed [] h = absurd (h refl)
prompt-context d m resumed (c ∷ context) h = refl

-- The developer is told what a failed CI run has to say: the text that the prompt of the repair puts
-- between its introduction and the milestone's title is what can be seen of the run's output, of
-- both its streams, or its exit code if nothing can be seen; of a text that is longer than 3,000
-- characters it is a mark and its last 3,000 characters.
pub repair_prompt :
    (d : SdkDeps) (m : Milestone) (resumed : Bool) (ci : SandboxRun)
    → (said context : Text) × Reported d.prices.characters ci said
      × Ends said context
      × (task_prompt d m (some (ci_repair_context d.prices.characters ci)) resumed
          ≡ repair_intro ++ (context ++ (text "\n\nMilestone for reference: " ++ m.title)))
unfolding ci_repair_context
repair_prompt d m resumed ci =
    let ch = d.prices.characters in
    let full = tail_of-Full ch 3000 (blob ch ci) (or_words-Full ch _ (exit_text ci) (λ e. cc)) in
    (
      blob ch ci,
      tail_of 3000 (blob ch ci),
      blob-Reported ch ci,
      tail_of-Ends (blob ch ci),
      prompt-context d m resumed _ full,
    )
