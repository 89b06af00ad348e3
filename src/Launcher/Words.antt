-- ===== src/Launcher/Words.antt =====
-- The words of a command (Assignment1/Part1/1.1/executeCommand.c).
use cs330_assignments.Base.{
  ℕ, zero, suc, ◌≤◌, ◌<◌, ◌≡◌, ◌≢◌, refl, ap, inl, inr, arith, Option, none, some, List, [], ◌∷◌,
  ◌++◌, length, length-append, ◌==◌, Bool-cases,
}
use cs330_assignments.Launcher.{drop_separators, take_token, strtok, token_loop}

-- A text without a separator.
pub data Solid (sep : ℕ) : List ℕ → Type 0 where
  solid_end : Solid sep []
  solid_next : {c : ℕ} {s : List ℕ} → c ≢ sep → Solid sep s → Solid sep (c ∷ s)

-- The words of a text: its longest parts without separators.
pub data Split (sep : ℕ) : List ℕ → List (List ℕ) → Type 0 where
  split_end : Split sep [] []
  split_skip : {s : List ℕ} {ws : List (List ℕ)} → Split sep s ws → Split sep (sep ∷ s) ws
  split_last : {w : List ℕ} → w ≢ [] → Solid sep w → Split sep w (w ∷ [])
  split_word :
      {w s : List ℕ} {ws : List (List ℕ)}
      → w ≢ []
      → Solid sep w
      → Split sep s ws
      → Split sep (w ++ sep ∷ s) (w ∷ ws)

-- A token and what follows it.
data Token (sep : ℕ) (s : List ℕ) : List ℕ × List ℕ → Type 0 where
  last_token : Solid sep s → Token sep s (s, [])
  token_before :
      {w left : List ℕ}
      → Solid sep w
      → s ≡ w ++ sep ∷ left
      → length left < length s
      → Token sep s (w, left)

Token-cons :
    (sep c : ℕ) (s : List ℕ) (t : List ℕ × List ℕ)
    → c ≢ sep
    → Token sep s t
    → Token sep (c ∷ s) (c ∷ t.0, t.1)
Token-cons sep c s _ n (last_token h) = last_token (solid_next n h)
Token-cons sep c s _ n (token_before h e l) =
    token_before (solid_next n h) (ap (◌∷◌ c) e) (omega arith)

take_token-Token : (sep : ℕ) (s : List ℕ) → Token sep s (take_token sep s)
unfolding take_token
take_token-Token sep [] = last_token solid_end
take_token-Token sep (c ∷ s) = elim (Bool-cases (c == sep)) [
  | inl e ↦
      let e' : c ≡ sep = ground arith in
      rw e (token_before solid_end (ap (λ x. x ∷ s) e') (omega arith))
  | inr n ↦ rw n (Token-cons sep c s _ (ground arith) (take_token-Token sep s))
]

-- What is left where the separators in front are dropped.
data Dropped (sep : ℕ) (s : List ℕ) : List ℕ → Type 0 where
  all_dropped : Split sep s [] → Dropped sep s []
  dropped :
      {c : ℕ} {rest : List ℕ}
      → c ≢ sep
      → length (c ∷ rest) ≤ length s
      → ((ws : List (List ℕ)) → Split sep (c ∷ rest) ws → Split sep s ws)
      → Dropped sep s (c ∷ rest)

Dropped-skip : (sep : ℕ) (s d : List ℕ) → Dropped sep s d → Dropped sep (sep ∷ s) d
Dropped-skip sep s _ (all_dropped h) = all_dropped (split_skip h)
Dropped-skip sep s _ (dropped n l h) = dropped n (omega arith) (λ ws w. split_skip (h ws w))

drop_separators-Dropped : (sep : ℕ) (s : List ℕ) → Dropped sep s (drop_separators sep s)
drop_separators-Dropped sep [] = all_dropped split_end
drop_separators-Dropped sep (c ∷ s) = elim (Bool-cases (c == sep)) [
  | inl e ↦
      let e' : c ≡ sep = ground arith in
      rw (e, e') (Dropped-skip sep s _ (drop_separators-Dropped sep s))
  | inr n ↦ rw n (dropped (ground arith) (omega arith) (λ ws w. w))
]

Split-nil : (sep : ℕ) (s : List ℕ) (ws : List (List ℕ)) → Split sep s ws → s ≡ [] → ws ≡ []
Split-nil sep _ _ split_end e = refl
Split-nil sep _ _ (split_skip h) e = absurd (ground (arith, ap length e))
Split-nil sep _ _ (split_last n h) e = absurd (n e)
Split-nil sep _ _ (split_word {w} {s} n h h') e =
    absurd (ground (arith, ap length e, length-append w (sep ∷ s)))

-- What strtok finds in a text: no word, or the first one.
pub data FirstWord (sep : ℕ) (s : List ℕ) : Option (List ℕ) × List ℕ → Type 0 where
  no_word : Split sep s [] → FirstWord sep s (none, [])
  a_word :
      {w left : List ℕ}
      → length left < length s
      → ((ws : List (List ℕ)) → Split sep left ws → Split sep s (w ∷ ws))
      → FirstWord sep s (some w, left)

abbrev head_of : List ℕ → ℕ
head_of [] = 0
head_of (c ∷ cs) = c

Token-FirstWord :
    (sep c : ℕ) (rest s : List ℕ) (t : List ℕ × List ℕ)
    → c ≢ sep
    → length (c ∷ rest) ≤ length s
    → ((ws : List (List ℕ)) → Split sep (c ∷ rest) ws → Split sep s ws)
    → Token sep (c ∷ rest) t
    → FirstWord sep s (some t.0, t.1)
Token-FirstWord sep c rest s _ n l h (last_token solid) =
    a_word {w = c ∷ rest} (omega arith) (λ ws w.
      rw (Split-nil sep [] ws w refl)
        (h ((c ∷ rest) ∷ []) (split_last (λ e. ground (arith, ap length e)) solid)))
Token-FirstWord sep c rest s _ n l h (token_before {w} {left} solid e m) =
    a_word (omega arith) (λ ws split.
      h (w ∷ ws) (rw e (split_word {w = w} (λ z. n (ap head_of (rw z at e))) solid split)))

Dropped-FirstWord :
    (sep : ℕ) (s d : List ℕ)
    → Dropped sep s d
    → FirstWord sep s (elim d [
      | [] ↦ (none, [])
      | c ∷ rest ↦ let t = take_token sep (c ∷ rest) in (some t.0, t.1)
    ])
Dropped-FirstWord sep s _ (all_dropped h) = no_word h
Dropped-FirstWord sep s _ (dropped {c} {rest} n l h) =
    Token-FirstWord sep c rest s _ n l h (take_token-Token sep (c ∷ rest))

pub strtok-FirstWord : (sep : ℕ) (s : List ℕ) → FirstWord sep s (strtok sep s)
unfolding strtok
strtok-FirstWord sep s = Dropped-FirstWord sep s _ (drop_separators-Dropped sep s)

-- What the loop over the tokens gives: all words, and nothing is left.
pub data AllWords (sep : ℕ) (s : List ℕ) : List (List ℕ) × List ℕ → Type 0 where
  all_words : {ws : List (List ℕ)} → Split sep s ws → AllWords sep s (ws, [])

-- One more word.
AllWords-more :
    (sep : ℕ) (s w left : List ℕ) (r : List (List ℕ) × List ℕ)
    → ((ws : List (List ℕ)) → Split sep left ws → Split sep s (w ∷ ws))
    → AllWords sep left r
    → AllWords sep s (w ∷ r.0, r.1)
AllWords-more sep s w left _ h (all_words {ws} split) = all_words (h ws split)

FirstWord-AllWords :
    (sep : ℕ) (s : List ℕ) (t : Option (List ℕ) × List ℕ) (rest : List ℕ → List (List ℕ) × List ℕ)
    → ((left : List ℕ) → length left < length s → AllWords sep left (rest left))
    → FirstWord sep s t
    → AllWords sep s (elim t.0 [ none ↦ ([], t.1) | some arg ↦ (arg ∷ (rest t.1).0, (rest t.1).1) ])
FirstWord-AllWords sep s _ rest h (no_word split) = all_words split
FirstWord-AllWords sep s _ rest h (a_word {w} {left} l split) =
    AllWords-more sep s w left (rest left) split (h left l)

-- The loop over the words of a text, with more rounds left than the text has bytes, gives exactly
-- the words of the text in their order, where a word is a part without a separator that is as long
-- as possible, and leaves no text behind for the next call of strtok.
pub token_loop-AllWords :
    (sep rounds : ℕ) (s : List ℕ) → length s < rounds → AllWords sep s (token_loop sep rounds s)
unfolding token_loop
token_loop-AllWords sep zero s l = absurd (omega arith)
token_loop-AllWords sep (suc rounds) s l =
    FirstWord-AllWords sep s _ (token_loop sep rounds)
      (λ left m. token_loop-AllWords sep rounds left (omega arith)) (strtok-FirstWord sep s)
