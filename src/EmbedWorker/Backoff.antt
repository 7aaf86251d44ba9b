-- ===== src/EmbedWorker/Backoff.antt =====
-- The delays before a retry, and the journey of a job that keeps failing.
use iter.Common.{
  ℕ, zero, suc, ◌*◌, ◌≤◌, ◌<◌, ◌≡◌, refl, ap, sym, ◌∙◌, Bool, true, false, if◌then◌else◌, str_eq,
  some, eq_iff, String, none, arith,
}
use iter.EmbedWorker.{Job, Json, of_raw, unmarshal_job, backoff_for_attempt, max_attempts}

from_fifth : (n : ℕ) → backoff_for_attempt (suc (suc (suc (suc (suc n))))) ≡ 16
unfolding backoff_for_attempt
from_fifth zero = refl
from_fifth (suc n) = ground arith

-- The delay doubles with each attempt from the first to the fifth and is sixteen seconds from
-- there on.
pub backoff_doubles :
    (n : ℕ)
    → (1 ≤ n → n < max_attempts → backoff_for_attempt (suc n) ≡ 2 * backoff_for_attempt n)
      × (max_attempts ≤ n → backoff_for_attempt n ≡ 16)
unfolding backoff_for_attempt
backoff_doubles zero = (λ h. absurd (omega arith), λ h. absurd (omega arith))
backoff_doubles (suc zero) = (λ h g. refl, λ h. absurd (omega arith))
backoff_doubles (suc (suc zero)) = (λ h g. refl, λ h. absurd (omega arith))
backoff_doubles (suc (suc (suc zero))) = (λ h g. refl, λ h. absurd (omega arith))
backoff_doubles (suc (suc (suc (suc zero)))) = (λ h g. refl, λ h. absurd (omega arith))
backoff_doubles (suc (suc (suc (suc (suc n))))) = (λ h g. absurd (omega arith), λ h. from_fifth n)

of_raw_text : (s : String) → (if str_eq s "" then "" else s) ≡ s
of_raw_text s = of_test (str_eq s "") refl
  where
    of_test : (b : Bool) → str_eq s "" ≡ b → (if b then "" else s) ≡ s
    of_test true e = sym ((eq_iff s "").0 e)
    of_test false e = refl

-- A job that was written to the queue is read back as it was.
pub unmarshal_job-marshal : (Js : Json) (j : Job) → unmarshal_job Js (Js.marshal j) ≡ some j
unfolding unmarshal_job
unmarshal_job-marshal Js j =
    ap (λ o. elim o [ none ↦ none | some raw ↦ some (of_raw raw) ]) (Js.parse-marshal j)
    ∙ ap (λ s. some (record j { source_text = s })) (of_raw_text j.source_text)
