-- ===== src/Http/Parser/Faults.antt =====
-- What the parser can never run into: back() of an empty header list.
use mathlib.Core.List.{concat-ne-nil}
use t2h.Common.{ℕ, List, [], ◌∷◌, some, ◌≡◌, ◌≢◌, refl, arith, Bytes}
use t2h.Http.Message.{Header, Request}
use t2h.Http.Parser.Rule.{Ensures, parse_rule}
use t2h.Http.Parser.{
  State, method_start, header_line_start, header_lws, header_name, space_before_header_value,
  header_value, back_of_empty, Outcome, indeterminate, complete, invalid, undefined, update_back,
  push_name, push_value, consume, faults, parse,
}

-- In the states inside a header there is a header.
abbrev InHeader : State → List Header → Type 0
InHeader header_lws hs = hs ≢ []
InHeader header_name hs = hs ≢ []
InHeader space_before_header_value hs = hs ≢ []
InHeader header_value hs = hs ≢ []
InHeader _ hs = Unit

abbrev Safe : Outcome → Type 0
Safe (indeterminate s req) = InHeader s req.headers
Safe (undefined f) = f ≢ back_of_empty
Safe _ = Unit

update_back-some :
    (f : Header → Header) (hs : List Header)
    → hs ≢ []
    → (gs : List Header) × (update_back f hs ≡ some gs) × (gs ≢ [])
unfolding update_back
update_back-some f [] ne = absurd (ne refl)
update_back-some f (h ∷ []) ne = (f h ∷ [], refl, λ e. cc)
update_back-some f (h ∷ g ∷ hs) ne =
    let (gs, e, _) = update_back-some f (g ∷ hs) (λ e. cc) in (h ∷ gs, rw (e, update_back), λ e. cc)

consume-Safe : (s : State) (req : Request) (c : ℕ) → InHeader s req.headers → Safe (consume s req c)
unfolding consume
consume-Safe method_start req c h = ground arith
consume-Safe header_line_start req c h =
    ground (arith, concat-ne-nil (record { name = c ∷ []; value = [] }) req.headers)
consume-Safe header_lws req c h = ground (arith, update_back-some (push_value c) req.headers h)
consume-Safe header_name req c h = ground (arith, update_back-some (push_name c) req.headers h)
consume-Safe header_value req c h = ground (arith, update_back-some (push_value c) req.headers h)
consume-Safe _ req c h = ground arith

Ensures-Safe :
    (s : State) (req : Request) (cs : Bytes) (o : Outcome)
    → Safe o
    → Ensures (λ s r. InHeader s r.headers) (λ r. r ≢ faults back_of_empty) s req cs o
Ensures-Safe s req cs (indeterminate t r) g = g
Ensures-Safe s req cs complete g = λ e. cc
Ensures-Safe s req cs invalid g = λ e. cc
Ensures-Safe s req cs (undefined f) g = λ e. g (ground arith)

-- A parser that starts at the method never reads back() of an empty header list, whatever request
-- object it is handed and whatever bytes come.
pub parse-ne-back_of_empty :
    (req : Request) (xs : Bytes) → parse method_start req xs ≢ faults back_of_empty
parse-ne-back_of_empty req xs =
    parse_rule (λ s r. InHeader s r.headers) (λ r. r ≢ faults back_of_empty)
      (λ s r c cs h. Ensures-Safe s r cs (consume s r c) (consume-Safe s r c h)) (λ s r h e. cc)
      method_start req xs tt
