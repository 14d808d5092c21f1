-- ===== src/GoPath/Laws.antt =====
-- Joining on to an absolute path that is in normal form.
use mathlib.Core.List.{reverse, reverse-cons, reverse-reverse, append_assoc, append-nil}
use bitcoinx.Base.{Text, true, false, List, [], ◌∷◌, eq_text, is_empty}
use bitcoinx.Base.{join_with, split_at, ◌≡◌, ◌++◌, refl, sym, ap, ◌∙◌, All, Lacks}
use bitcoinx.Base.{inl, inr, Bool-cases, split_at-join_with, All-append, eq_text_iff}
use bitcoinx.GoPath.{slash, dot, dot_dot, clean_step, clean_parts, clean, path_join}

-- A file name: not empty, not `.` or `..`, and with no slash in it.
pub record IsName (c : Text) : Type 0 where
  pub no_slash : Lacks b'/' c
  pub nonempty : is_empty c ≡ false
  pub not_dot : eq_text c dot ≡ false
  pub not_dot_dot : eq_text c dot_dot ≡ false

-- The absolute path of these names.
unfoldable pub absolute : List Text → Text
unfolding join_with
absolute ps = b'/' ∷ join_with slash ps

clean_step-name : (kept : List Text) (p : Text) → IsName p → clean_step true kept p ≡ p ∷ kept
unfolding clean_step
clean_step-name kept p h = rw (h.nonempty, h.not_dot, h.not_dot_dot)

clean_parts-names :
    (kept ps : List Text) → All IsName ps → clean_parts true kept ps ≡ reverse ps ++ kept
unfolding clean_parts clean_step
clean_parts-names kept [] h = refl
clean_parts-names kept (p ∷ ps) h =
    ap (λ (k : List Text). clean_parts true k ps) (clean_step-name kept p h.0)
    ∙ clean_parts-names (p ∷ kept) ps h.1
    ∙ rw (reverse-cons, append_assoc)

join_with-append :
    (p : Text) (ps : List Text) (q : Text) (qs : List Text)
    → join_with slash (p ∷ (ps ++ q ∷ qs))
      ≡ join_with slash (p ∷ ps) ++ b'/' ∷ join_with slash (q ∷ qs)
unfolding join_with
join_with-append p [] q qs = refl
join_with-append p (r ∷ ps) q qs =
    ap (λ (t : Text). p ++ b'/' ∷ t) (join_with-append r ps q qs)
    ∙ sym (append_assoc p (b'/' ∷ join_with slash (r ∷ ps)) _)

clean-rooted :
    (s : Text)
    → clean (b'/' ∷ s) ≡ b'/' ∷ join_with slash (reverse (clean_parts true [] (split_at b'/' s)))
unfolding clean
clean-rooted s = refl

clean-slashes : (s : Text) → clean (b'/' ∷ b'/' ∷ s) ≡ clean (b'/' ∷ s)
unfolding clean
clean-slashes s = refl

All-no_slash : (ps : List Text) → All IsName ps → All (Lacks b'/') ps
All-no_slash [] h = tt
All-no_slash (p ∷ ps) h = (h.0.no_slash, All-no_slash ps h.1)

clean-names :
    (p : Text) (ps : List Text)
    → All IsName (p ∷ ps)
    → clean (b'/' ∷ join_with slash (p ∷ ps)) ≡ b'/' ∷ join_with slash (p ∷ ps)
clean-names p ps h =
    clean-rooted _
    ∙ rw (split_at-join_with b'/' p ps (h.0.no_slash) (All-no_slash ps h.1))
        (rw (clean_parts-names [] (p ∷ ps) h) (rw (append-nil, reverse-reverse)))

-- Joining file names on to an absolute path in normal form lists them behind its own names.
pub path_join-absolute :
    (ps : List Text) (q : Text) (qs : List Text)
    → All IsName ps
    → All IsName (q ∷ qs)
    → path_join (absolute ps ∷ q ∷ qs) ≡ absolute (ps ++ q ∷ qs)
unfolding path_join absolute
path_join-absolute [] q qs hp hq = clean-slashes (join_with slash (q ∷ qs)) ∙ clean-names q qs hq
path_join-absolute (p ∷ ps) q qs hp hq =
    ap (λ (t : Text). clean (b'/' ∷ t)) (sym (join_with-append p ps q qs))
    ∙ clean-names p (ps ++ q ∷ qs) (hp.0, All-append IsName ps (q ∷ qs) hp.1 hq)

split_at-absolute :
    (p : Text) (ps : List Text)
    → All IsName (p ∷ ps)
    → split_at b'/' (absolute (p ∷ ps)) ≡ [] ∷ p ∷ ps
unfolding absolute split_at
split_at-absolute p ps h =
    ap (λ (l : List Text). [] ∷ l)
      (split_at-join_with b'/' p ps (h.0.no_slash) (All-no_slash ps h.1))

last_eq : (ps : List Text) (a b : Text) → ps ++ a ∷ [] ≡ ps ++ b ∷ [] → a ≡ b
last_eq [] a b h = cc
last_eq (p ∷ ps) a b h = last_eq ps a b (cc)

absolute-last :
    (ps : List Text) (a b : Text)
    → All IsName ps
    → IsName a
    → IsName b
    → absolute (ps ++ a ∷ []) ≡ absolute (ps ++ b ∷ [])
    → a ≡ b
absolute-last [] a b hp ha hb e =
    last_eq ([] ∷ []) a b (
      sym (split_at-absolute a [] (ha, tt))
      ∙ ap (split_at b'/') e
      ∙ split_at-absolute b [] (hb, tt))
absolute-last (p ∷ ps) a b hp ha hb e = last_eq ([] ∷ p ∷ ps) a b (
    sym (split_at-absolute p (ps ++ a ∷ []) (hp.0, All-append IsName ps (a ∷ []) hp.1 (ha, tt)))
    ∙ ap (split_at b'/') e
    ∙ split_at-absolute p (ps ++ b ∷ []) (hp.0, All-append IsName ps (b ∷ []) hp.1 (hb, tt)))

-- Two names joined on to one directory give different paths, if they differ.
pub path_join-ne :
    (ps : List Text) (a b : Text)
    → All IsName ps
    → IsName a
    → IsName b
    → eq_text a b ≡ false
    → eq_text (path_join (absolute ps ∷ a ∷ [])) (path_join (absolute ps ∷ b ∷ [])) ≡ false
path_join-ne ps a b hp ha hb ne =
    elim (Bool-cases
      (eq_text (path_join (absolute ps ∷ a ∷ [])) (path_join (absolute ps ∷ b ∷ [])))) [
        | inr differ ↦ differ
        | inl same ↦ absurd (
            true_ne (
              sym (
                (eq_text_iff a b).1 (
                  absolute-last ps a b hp ha hb (
                    sym (path_join-absolute ps a [] hp (ha, tt))
                    ∙ (eq_text_iff _ _).0 same
                    ∙ path_join-absolute ps b [] hp (hb, tt))))
              ∙ ne))
      ]
  where
    true_ne : true ≡ false → ⊥
    true_ne h = cc
