-- ===== src/Cmd/Execute/Parser/Laws.antt =====
-- That the small parser of lines does what is asked of cobra.
use bitcoinx.Base.{
  Text, lit, List, [], ◌∷◌, Bool, true, false, eq_text, Option, none, some, ok, ◌≡◌, refl, ap, sym,
  ◌∙◌, subst, arith, length, Bool-cases, inl, inr,
}
use bitcoinx.Cmd.Flags.{
  IsCobra, selected, Subcommand, creating, starting, joining, building, calling, Kind, string,
  boolean, declared, flag_of, accepts, first_word,
}
use bitcoinx.Cmd.Execute.Parser.{
  Given, setting_of, or_default, or_default_bool, is_given, as_string, as_bool, parse_words,
  subcommand_of, parsed_in, resolve_in, resolve, parser,
}

-- What an accepted line says of what was parsed.
abbrev Accepted : Subcommand → List Text → Given → Type 0
Accepted s args g =
    (g.command ≡ s)
    × (accepts ((declared s).args) (length args) ≡ true)
    × ((declared s).disable_flag_parsing ≡ true → g.settings ≡ [])

selected-inv :
    (s s' : Subcommand) (args args' : List Text) (g g' : Given)
    → selected s args g ≡ selected s' args' g'
    → (s ≡ s') × (args ≡ args') × (g ≡ g')
selected-inv s s' args args' g g' h = (cc, cc, cc)

parsed_in-Accepted :
    (s s' : Subcommand) (p : Option (List (Text × Text) × List Text)) (args : List Text) (g : Given)
    → (declared s).disable_flag_parsing ≡ false
    → parsed_in s p ≡ selected s' args g
    → Accepted s' args g
parsed_in-Accepted s s' none args g d h = absurd (cc)
parsed_in-Accepted s s' (some (given, words)) args g d h =
    elim (Bool-cases (accepts ((declared s).args) (length words))) [
      | inl e ↦
          let (p, q, r) =
            selected-inv s s' words args (record { command = s; settings = given }) g (rw e at h) in
          (
            ap (λ (x : Given). x.command) (sym r) ∙ p,
            subst (λ (x : Subcommand). accepts ((declared x).args) (length args) ≡ true) p
                (subst (λ (x : List Text). accepts ((declared s).args) (length x) ≡ true) q e),
            λ t.
                absurd (apart d (ap (λ (x : Subcommand). (declared x).disable_flag_parsing) p ∙ t)),
          )
      | inr e ↦ absurd (ground (arith, e, h))
    ]
  where
    apart : {b : Bool} → b ≡ false → b ≡ true → ⊥
    apart f t = cc

resolve-Accepted :
    (line : List Text) (s : Subcommand) (args : List Text) (g : Given)
    → resolve line ≡ selected s args g
    → Accepted s args g
unfolding resolve declared accepts
resolve-Accepted [] s args g h = absurd (cc)
resolve-Accepted (word ∷ words) s args g h = go (subcommand_of word) h
  where
    go : (o : Option Subcommand) → resolve_in words o ≡ selected s args g → Accepted s args g
    go none h = absurd cc
    go (some calling) h =
        let (p, q, r) =
          selected-inv calling s words args (record { command = calling; settings = [] }) g h in
        (
          ap (λ (x : Given). x.command) (sym r) ∙ p,
          subst (λ (x : Subcommand). accepts ((declared x).args) (length args) ≡ true) p refl,
          λ t. ap (λ (x : Given). x.settings) (sym r),
        )
    go (some creating) h = parsed_in-Accepted creating s (parse_words creating words) args g refl h
    go (some starting) h = parsed_in-Accepted starting s (parse_words starting words) args g refl h
    go (some joining) h = parsed_in-Accepted joining s (parse_words joining words) args g refl h
    go (some building) h = parsed_in-Accepted building s (parse_words building words) args g refl h

got :
    (k : Option Kind) (v : Option Text) (d : Text)
    → k ≡ some (string d)
    → (x : Text) × (as_string k v ≡ ok x)
got k v d e = (or_default d v, rw e)

got_b :
    (k : Option Kind) (v : Option Text) (d : Bool)
    → k ≡ some (boolean d)
    → (x : Bool) × (as_bool k v ≡ ok x)
got_b k v d e = (or_default_bool d v, rw e)

default :
    (k : Option Kind) (v : Option Text) (d : Text)
    → k ≡ some (string d)
    → is_given v ≡ false
    → as_string k v ≡ ok d
default k none d e h = rw e
default k (some v) d e h = absurd (ground (arith, h))

default_b :
    (k : Option Kind) (v : Option Text) (d : Bool)
    → k ≡ some (boolean d)
    → is_given v ≡ false
    → as_bool k v ≡ ok d
default_b k none d e h = rw e
default_b k (some v) d e h = absurd (ground (arith, h))

own :
    (s : Subcommand) (g : Given) (name : Text) {k : Option Kind}
    → g.command ≡ s
    → flag_of s name ≡ k
    → flag_of g.command name ≡ k
own s g name c e = ap (λ (x : Subcommand). flag_of x name) c ∙ e

disabled-calling : (s : Subcommand) → (declared s).disable_flag_parsing ≡ true → s ≡ calling
unfolding declared
disabled-calling creating h = absurd cc
disabled-calling starting h = absurd cc
disabled-calling joining h = absurd cc
disabled-calling building h = absurd cc
disabled-calling calling h = refl

verbatim_on :
    (rest : List Text) (s : Subcommand) (args : List Text) (g : Given)
    → resolve (lit "cli" ∷ rest) ≡ selected s args g
    → args ≡ rest
unfolding resolve eq_text
verbatim_on rest s args g h =
    sym ((selected-inv calling s rest args (record { command = calling; settings = [] }) g h).1)

cli_word : first_word ((declared calling).use_line) ≡ lit "cli"
unfolding first_word declared
cli_word = refl

pub parser-IsCobra : IsCobra parser
unfolding setting_of
parser-IsCobra = record {
  accepted = λ line s args g h. (resolve-Accepted line s args g h).1;
  got_string = λ line s args g name d h e.
      got _ (setting_of name g.settings) d (own s g name ((resolve-Accepted line s args g h).0) e);
  got_bool = λ line s args g name d h e.
      got_b _ (setting_of name g.settings) d
        (own s g name ((resolve-Accepted line s args g h).0) e);
  default_string = λ line s args g name d h e.
      default _ (setting_of name g.settings) d
        (own s g name ((resolve-Accepted line s args g h).0) e);
  default_bool = λ line s args g name d h e.
      default_b _ (setting_of name g.settings) d
        (own s g name ((resolve-Accepted line s args g h).0) e);
  unparsed = λ line s args g name h d.
      ap (λ vs. is_given (setting_of name vs)) ((resolve-Accepted line s args g h).2 d);
  verbatim = λ rest s args g d h. verbatim_on rest s args g (
      subst (λ (w : Text). resolve (w ∷ rest) ≡ selected s args g)
        (ap (λ x. first_word ((declared x).use_line)) (disabled-calling s d) ∙ cli_word) h);
}
