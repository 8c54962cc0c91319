-- ===== src/Http/Parser/Sound.antt =====
-- What a request that `parse` completes looks like.
use mathlib.Core.List.{concat-ne-nil}
use t2h.Common.{
  ℕ, false, List, [], ◌∷◌, Option, none, some, ◌≡◌, ◌≢◌, refl, arith, Bytes, ◌==◌, All, All-append,
}
use t2h.Http.Message.{Header, Request, method_type}
use t2h.Http.Parser.Rule.{Ensures, parse_rule}
use t2h.Http.Parser.{
  State, method_start, method, uri_start, uri, header_line_start, header_lws, header_name,
  header_value, is_ctl, not_token, update_back, push_name, push_value, consume, Outcome,
  indeterminate, complete, invalid, undefined, tri_true, Run, returns, faults, parse,
}

abbrev pub IsToken : ℕ → Type 0
IsToken c = not_token c ≡ false

abbrev pub IsText : ℕ → Type 0
IsText c = is_ctl c ≡ false

abbrev pub IsUri : ℕ → Type 0
IsUri c = (is_ctl c ≡ false) × ((c == b' ') ≡ false)

-- A name is a token, and a value holds no control byte, so no line end and no NUL.
abbrev pub IsHeader : Header → Type 0
IsHeader h = (h.name ≢ []) × All IsToken h.name × All IsText h.value

abbrev pub IsRequest : Request → Type 0
IsRequest req = All IsToken req.method × All IsUri req.uri × All IsHeader req.headers

abbrev MethodRead : State → Request → Type 0
MethodRead method_start req = Unit
MethodRead uri_start req = ⊥
MethodRead _ req = req.method ≢ []

abbrev Inv : State → Request → Type 0
Inv s req = IsRequest req × MethodRead s req

abbrev AllBack : Option (List Header) → Type 0
AllBack none = Unit
AllBack (some hs) = All IsHeader hs

update_back-All :
    (f : Header → Header)
    → ((h : Header) → IsHeader h → IsHeader (f h))
    → (hs : List Header) → All IsHeader hs
    → AllBack (update_back f hs)
unfolding update_back
update_back-All f keep [] a = tt
update_back-All f keep (h ∷ []) a = (keep h a.0, tt)
update_back-All f keep (h ∷ g ∷ hs) a =
    go (update_back f (g ∷ hs)) refl (update_back-All f keep (g ∷ hs) a.1)
  where
    go :
        (o : Option (List Header))
        → update_back f (g ∷ hs) ≡ o
        → AllBack o
        → AllBack (update_back f (h ∷ g ∷ hs))
    go none e b = rw (e, update_back) tt
    go (some gs) e b = rw (e, update_back) (a.0, b)

push_name-IsHeader : (c : ℕ) (h : Header) → IsToken c → IsHeader h → IsHeader (push_name c h)
push_name-IsHeader c h t (ne, n, v) =
    (concat-ne-nil c h.name, All-append IsToken h.name (c ∷ []) n (t, tt), v)

push_value-IsHeader : (c : ℕ) (h : Header) → IsText c → IsHeader h → IsHeader (push_value c h)
push_value-IsHeader c h t (ne, n, v) = (ne, n, All-append IsText h.value (c ∷ []) v (t, tt))

back_name :
    (c : ℕ) (hs : List Header)
    → IsToken c
    → All IsHeader hs
    → AllBack (update_back (push_name c) hs)
back_name c hs t = update_back-All (push_name c) (λ h. push_name-IsHeader c h t) hs

back_value :
    (c : ℕ) (hs : List Header)
    → IsText c
    → All IsHeader hs
    → AllBack (update_back (push_value c) hs)
back_value c hs t = update_back-All (push_value c) (λ h. push_value-IsHeader c h t) hs

abbrev Keeps : State → Outcome → Type 0
Keeps s (indeterminate t r) = Inv t r
Keeps s complete = s ≢ method_start
Keeps s _ = Unit

consume-Keeps : (s : State) (req : Request) (c : ℕ) → Inv s req → Keeps s (consume s req c)
unfolding consume
consume-Keeps method_start req c ((m, u, h), ne) =
    ground (arith, concat-ne-nil c req.method, All-append IsToken req.method (c ∷ []) m)
consume-Keeps method req c ((m, u, h), ne) =
    ground (arith, concat-ne-nil c req.method, All-append IsToken req.method (c ∷ []) m)
consume-Keeps uri_start req c ((m, u, h), ne) = elim ne [ ]
consume-Keeps uri req c ((m, u, h), ne) = ground (arith, All-append IsUri req.uri (c ∷ []) u)
consume-Keeps header_line_start req c ((m, u, h), ne) =
    ground (arith, All-append IsHeader req.headers (record { name = c ∷ []; value = [] } ∷ []) h)
consume-Keeps header_lws req c ((m, u, h), ne) = ground (arith, back_value c req.headers)
consume-Keeps header_name req c ((m, u, h), ne) = ground (arith, back_name c req.headers)
consume-Keeps header_value req c ((m, u, h), ne) = ground (arith, back_value c req.headers)
consume-Keeps _ req c ((m, u, h), ne) = ground arith

-- What a call promises of the request it hands back, complete or not.
abbrev pub Promise : Run → Type 0
Promise (returns p) =
    IsRequest p.req
    × (p.state ≢ uri_start)
    × (p.result ≡ tri_true → (p.req.method ≢ []) × (p.req.mtype ≡ method_type p.req.method))
Promise (faults f) = Unit

method_read : (s : State) (req : Request) → s ≢ method_start → MethodRead s req → req.method ≢ []
method_read method_start req ne h = absurd (ne refl)
method_read uri_start req ne h = elim h [ ]
method_read _ req ne h = h

not_uri_start : (s : State) (req : Request) → MethodRead s req → s ≢ uri_start
not_uri_start uri_start req h = elim h [ ]
not_uri_start _ req h = λ e. cc

Keeps-Ensures :
    (s : State) (req : Request) (cs : Bytes) (o : Outcome)
    → Inv s req
    → Keeps s o
    → Ensures Inv Promise s req cs o
Keeps-Ensures s req cs (indeterminate t r) v k = k
Keeps-Ensures s req cs complete v k =
    (v.0, not_uri_start s req v.1, λ e. (method_read s req k v.1, refl))
Keeps-Ensures s req cs invalid v k = (v.0, not_uri_start s req v.1, λ e. cc)
Keeps-Ensures s req cs (undefined f) v k = tt

-- From a request whose parts are in order, say an empty one, every call from the method on hands
-- back a request whose method and header names are tokens, whose URI holds no blank and no control
-- byte and whose header values hold no control byte, and never a parser in `uri_start`; a complete
-- request has a method, and its type is that of the method.
pub parse-Promise :
    (req : Request) (xs : Bytes) → IsRequest req → Promise (parse method_start req xs)
parse-Promise req xs h =
    parse_rule Inv Promise
      (λ s r c cs v. Keeps-Ensures s r cs (consume s r c) v (consume-Keeps s r c v))
      (λ s r v. (v.0, not_uri_start s r v.1, λ e. cc)) method_start req xs (h, tt)
