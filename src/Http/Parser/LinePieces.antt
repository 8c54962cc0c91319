-- ===== src/Http/Parser/LinePieces.antt =====
-- The parser over one piece of a request line, with anything behind it.
use t2h.Http.Parser.Text.{number}
use t2h.Common.{
  ℕ, ◌+◌, ◌-◌, ◌*◌, ◌≤◌, true, [], ◌∷◌, ◌++◌, ◌≡◌, ◌≢◌, ◌⊎◌, inr, refl, ◌∙◌, arith, Bytes, All,
  append_assoc, append-nil,
}
use t2h.Http.Message.{Request}
use t2h.Http.Parser.Sound.{IsToken, IsUri}
use t2h.Http.Parser.{
  State, method, uri, http_version_major_start, http_version_major, http_version_minor_start,
  http_version_minor, is_digit, not_token, int_max, consume, parse,
}

number-ge : (v : ℕ) (ds : Bytes) → All (λ c. is_digit c ≡ true) ds → v ≤ number v ds
unfolding is_digit
number-ge v [] a = omega arith
number-ge v (c ∷ cs) a = ground (arith, number-ge (v * 10 + c - b'0') cs a.1)

number_room :
    (v c : ℕ) (ds : Bytes)
    → is_digit c ≡ true
    → All (λ c. is_digit c ≡ true) ds
    → number v (c ∷ ds) + b'0' ≤ int_max
    → v * 10 + c ≤ int_max
unfolding is_digit
number_room v c ds d a h = ground (arith, number-ge (v * 10 + c - b'0') ds a)

-- One byte of each part that has any length.
pub step_method :
    (req : Request) (c : ℕ) (rest : Bytes)
    → IsToken c
    → parse method req (c ∷ rest) ≡ parse method (record req { method = req.method ++ c ∷ [] }) rest
unfolding parse consume not_token
step_method req c rest h = ground arith

step_uri :
    (req : Request) (c : ℕ) (rest : Bytes)
    → IsUri c
    → parse uri req (c ∷ rest) ≡ parse uri (record req { uri = req.uri ++ c ∷ [] }) rest
unfolding parse consume
step_uri req c rest h = ground arith

step_major :
    (s : State) (req : Request) (c : ℕ) (rest : Bytes)
    → (s ≡ http_version_major_start) ⊎ (s ≡ http_version_major)
    → is_digit c ≡ true
    → req.http_version_major * 10 + c ≤ int_max
    → parse s req (c ∷ rest)
      ≡ parse http_version_major
          (record req { http_version_major = req.http_version_major * 10 + c - b'0' })
          rest
unfolding parse consume
step_major s req c rest m d h = ground arith

step_minor :
    (s : State) (req : Request) (c : ℕ) (rest : Bytes)
    → (s ≡ http_version_minor_start) ⊎ (s ≡ http_version_minor)
    → is_digit c ≡ true
    → req.http_version_minor * 10 + c ≤ int_max
    → parse s req (c ∷ rest)
      ≡ parse http_version_minor
          (record req { http_version_minor = req.http_version_minor * 10 + c - b'0' })
          rest
unfolding parse consume
step_minor s req c rest m d h = ground arith

-- Whole parts, with anything behind them.
pub run_method :
    (m : Bytes) (req : Request) (rest : Bytes)
    → All IsToken m
    → parse method req (m ++ rest) ≡ parse method (record req { method = req.method ++ m }) rest
run_method [] req rest a = rw append-nil
run_method (c ∷ cs) req rest a =
    step_method req c (cs ++ rest) a.0
    ∙ run_method cs (record req { method = req.method ++ c ∷ [] }) rest a.1
    ∙ rw append_assoc

pub run_uri :
    (u : Bytes) (req : Request) (rest : Bytes)
    → All IsUri u
    → parse uri req (u ++ rest) ≡ parse uri (record req { uri = req.uri ++ u }) rest
run_uri [] req rest a = rw append-nil
run_uri (c ∷ cs) req rest a =
    step_uri req c (cs ++ rest) a.0
    ∙ run_uri cs (record req { uri = req.uri ++ c ∷ [] }) rest a.1
    ∙ rw append_assoc

pub run_major :
    (ds : Bytes) (s : State) (req : Request) (rest : Bytes)
    → (s ≡ http_version_major_start) ⊎ (s ≡ http_version_major)
    → ds ≢ []
    → All (λ c. is_digit c ≡ true) ds
    → number req.http_version_major ds + b'0' ≤ int_max
    → parse s req (ds ++ rest)
      ≡ parse http_version_major
          (record req { http_version_major = number req.http_version_major ds })
          rest
run_major [] s req rest m ne a h = absurd (ne refl)
run_major (c ∷ []) s req rest m ne a h =
    step_major s req c rest m a.0 (number_room req.http_version_major c [] a.0 tt h)
run_major (c ∷ d ∷ ds) s req rest m ne a h =
    step_major s req c (d ∷ ds ++ rest) m a.0
      (number_room req.http_version_major c (d ∷ ds) a.0 a.1 h)
    ∙ run_major (d ∷ ds) http_version_major
        (record req { http_version_major = req.http_version_major * 10 + c - b'0' }) rest (inr refl)
        (λ e. cc) a.1 h

pub run_minor :
    (ds : Bytes) (s : State) (req : Request) (rest : Bytes)
    → (s ≡ http_version_minor_start) ⊎ (s ≡ http_version_minor)
    → ds ≢ []
    → All (λ c. is_digit c ≡ true) ds
    → number req.http_version_minor ds + b'0' ≤ int_max
    → parse s req (ds ++ rest)
      ≡ parse http_version_minor
          (record req { http_version_minor = number req.http_version_minor ds })
          rest
run_minor [] s req rest m ne a h = absurd (ne refl)
run_minor (c ∷ []) s req rest m ne a h =
    step_minor s req c rest m a.0 (number_room req.http_version_minor c [] a.0 tt h)
run_minor (c ∷ d ∷ ds) s req rest m ne a h =
    step_minor s req c (d ∷ ds ++ rest) m a.0
      (number_room req.http_version_minor c (d ∷ ds) a.0 a.1 h)
    ∙ run_minor (d ∷ ds) http_version_minor
        (record req { http_version_minor = req.http_version_minor * 10 + c - b'0' }) rest (inr refl)
        (λ e. cc) a.1 h
