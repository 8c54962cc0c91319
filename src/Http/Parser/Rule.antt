-- ===== src/Http/Parser/Rule.antt =====
-- The induction over the bytes of `parse`, made once: an invariant that every step keeps holds
-- where the parser stops.
use t2h.Common.{ℕ, [], ◌∷◌, ◌≡◌, refl, Bytes}
use t2h.Http.Message.{Request, http_request_set_mtype}
use t2h.Http.Parser.{
  State, Outcome, indeterminate, complete, invalid, undefined, consume, tri_true, tri_false,
  tri_indeterminate, Run, returns, faults, parse,
}

module _ (Inv : State → Request → Type 0) (Post : Run → Type 0) where
  -- What a step from `s` and `req` with `rest` behind it has to establish.
  abbrev pub Ensures : State → Request → Bytes → Outcome → Type 0
  Ensures s req rest (indeterminate t r) = Inv t r
  Ensures s req rest complete = Post (
      returns
        (record { result = tri_true; rest = rest; state = s; req = http_request_set_mtype req }))
  Ensures s req rest invalid = Post (
      returns
        (record { result = tri_false; rest = rest; state = s; req = http_request_set_mtype req }))
  Ensures s req rest (undefined f) = Post (faults f)

  pub parse_rule :
      ((s : State) (req : Request) (c : ℕ) (cs : Bytes)
        → Inv s req
        → Ensures s req cs (consume s req c))
      → ((s : State) (req : Request)
          → Inv s req
          → Post (returns (record { result = tri_indeterminate; rest = []; state = s; req = req })))
      → (s : State) (req : Request) (xs : Bytes) → Inv s req
      → Post (parse s req xs)
  unfolding parse
  parse_rule step wait s req [] h = wait s req h
  parse_rule step wait s req (c ∷ cs) h =
      go (consume s req c) refl (step s req c cs h) (λ t r. parse_rule step wait t r cs)
    where
      go :
          (o : Outcome)
          → consume s req c ≡ o
          → Ensures s req cs o
          → ((t : State) (r : Request) → Inv t r → Post (parse t r cs))
          → Post (parse s req (c ∷ cs))
      go (indeterminate t r) e g ih = rw (e, parse) (ih t r g)
      go complete e g ih = rw (e, parse) g
      go invalid e g ih = rw (e, parse) g
      go (undefined f) e g ih = rw (e, parse) g
