-- ===== src/Http/Parser/Chunks.antt =====
-- `parse` over input that arrives in pieces: the caller keeps the parser and the request and goes
-- on with the next piece.
use t2h.Common.{[], ◌∷◌, ◌++◌, ◌≡◌, refl, Bytes}
use t2h.Http.Message.{Request}
use t2h.Http.Parser.{
  State, Outcome, indeterminate, complete, invalid, undefined, consume, Tribool, tri_true,
  tri_false, tri_indeterminate, Parsed, Run, returns, faults, parse,
}

-- The call with the next piece, which the caller makes only where more input is wanted.
abbrev pub go_on : Tribool → Parsed → Bytes → Run
go_on tri_indeterminate p more = parse p.state p.req more
go_on tri_true p more = returns (record p { rest = p.rest ++ more })
go_on tri_false p more = returns (record p { rest = p.rest ++ more })

abbrev pub resume : Run → Bytes → Run
resume (returns p) more = go_on p.result p more
resume (faults f) more = faults f

-- Where the bytes are cut does not matter: parsing a piece and going on with the rest gives what
-- one call on all of it gives, the request, the state and the bytes left over included.
pub parse-append :
    (s : State) (req : Request) (xs ys : Bytes)
    → parse s req (xs ++ ys) ≡ resume (parse s req xs) ys
unfolding parse
parse-append s req [] ys = refl
parse-append s req (c ∷ cs) ys = go (consume s req c) refl (λ t r. parse-append t r cs ys)
  where
    go :
        (o : Outcome)
        → consume s req c ≡ o
        → ((t : State) (r : Request) → parse t r (cs ++ ys) ≡ resume (parse t r cs) ys)
        → parse s req (c ∷ cs ++ ys) ≡ resume (parse s req (c ∷ cs)) ys
    go (indeterminate t r) e ih = rw (e, parse) (ih t r)
    go complete e ih = rw (e, parse)
    go invalid e ih = rw (e, parse)
    go (undefined f) e ih = rw (e, parse)
