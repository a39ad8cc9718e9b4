-- ===== src/Ingest/ApiClient/Retry.antt =====
-- services/ingest/apiclient/retry.go: how often a request is made, and what an answer means.
use distributed_payment_mana.Prelude.{
  ℕ, zero, suc, ◌+◌, ◌≤◌, ℤ, pos_part, String, none, some, List, length, [], ◌∷◌, ◌++◌, ◌≡◌, refl,
  sym, ◌∙◌, arith, ◌⊎◌, inl, inr, Bool-cases,
}
use distributed_payment_mana.Exec.{Result, ok, err, ◌>>=◌}
use distributed_payment_mana.Postgres.{ticked}
use distributed_payment_mana.Ingest.Dto.{Request}
use distributed_payment_mana.Ingest.ApiClient.{
  Outside, Ingest, Call, Failure, post, send_request, attempts, after_attempt, is_unavailable,
  do_with_retry,
}

length-++ : {A : Type 0} (xs ys : List A) → length (xs ++ ys) ≡ length xs + length ys
length-++ [] ys = omega arith
length-++ (x ∷ xs) ys = omega (arith, length-++ xs ys)

pub send_request-length :
    (out : Outside) (path : String) (req : Request) (w : Ingest)
    → length (send_request out path req w).1.sent ≤ length w.sent + 1
unfolding send_request ◌>>=◌ post
send_request-length out path req w =
    elim (out.encode req)
        as (λ x.
          (x ≡ out.encode req) → length (send_request out path req w).1.sent ≤ length w.sent + 1) [
            | none ↦ λ k. rw (sym k) (omega arith)
            | some body ↦ λ k.
                rw (sym k)
                  (omega (arith, length-++ w.sent (record { path = path; body = body } ∷ [])))
          ]
      refl

attempts-length :
    (out : Outside) (n : ℕ) (fn : Call (Unit {0})) (w : Ingest)
    → ((v : Ingest) → length (fn v).1.sent ≤ length v.sent + 1)
    → length (attempts out n fn w).1.sent ≤ length w.sent + n
unfolding attempts
attempts-length out zero fn w h = omega arith
attempts-length out (suc n) fn w h = at n (fn w) (h w) (λ v. attempts-length out n fn v h)
  where
    at :
        (m : ℕ) (q : Result Failure (Unit {0}) × Ingest)
        → length q.1.sent ≤ length w.sent + 1
        → ((v : Ingest) → length (attempts out m fn v).1.sent ≤ length v.sent + m)
        → length (after_attempt out m (attempts out m fn) q).1.sent ≤ length w.sent + suc m
    at m (ok _, v) k rest = omega (arith, k)
    at zero (err e, v) k rest = omega (arith, k)
    at (suc m) (err e, v) k rest = elim (Bool-cases (is_unavailable e)) [
      | inl again ↦ elim (Bool-cases (out.is_done v.tick)) [
        | inl done ↦ rw (again, done) (omega (arith, k))
        | inr waits ↦ rw (again, waits) (omega (arith, k, rest (ticked v)))
      ]
      | inr final ↦ rw final (omega (arith, k))
    ]

attempts-ok :
    (out : Outside) (n : ℕ) (fn : Call (Unit {0})) (w v : Ingest)
    → attempts out n fn w ≡ (ok tt, v)
    → (n ≡ 0) ⊎ ((u : Ingest) × (fn u ≡ (ok tt, v)))
unfolding attempts
attempts-ok out zero fn w v h = inl refl
attempts-ok out (suc n) fn w v h = at n (fn w) refl h (λ u. attempts-ok out n fn u v)
  where
    at :
        (m : ℕ) (q : Result Failure (Unit {0}) × Ingest)
        → fn w ≡ q
        → after_attempt out m (attempts out m fn) q ≡ (ok tt, v)
        → ((u : Ingest)
            → attempts out m fn u ≡ (ok tt, v)
            → (m ≡ 0) ⊎ ((u : Ingest) × (fn u ≡ (ok tt, v))))
        → (suc n ≡ 0) ⊎ ((u : Ingest) × (fn u ≡ (ok tt, v)))
    at m (ok _, x) e k rest = inr (w, e ∙ k)
    at zero (err f, x) e k rest = absurd (ground arith)
    at (suc m) (err f, x) e k rest = elim (Bool-cases (is_unavailable f)) [
      | inl again ↦ elim (Bool-cases (out.is_done x.tick)) [
        | inl done ↦ absurd (ground arith)
        | inr waits ↦ elim (rest (ticked x) (ground arith)) [
          | inl none_left ↦ absurd (omega arith)
          | inr last ↦ inr last
        ]
      ]
      | inr final ↦ absurd (ground arith)
    ]

-- A request with retries is made at most `max_attempts` times, whatever the answers are.
pub do_with_retry-length :
    (out : Outside) (max_attempts : ℤ) (path : String) (req : Request) (w : Ingest)
    → length (do_with_retry out max_attempts (send_request out path req) w).1.sent
      ≤ length w.sent + pos_part max_attempts
unfolding do_with_retry
do_with_retry-length out max_attempts path req w =
    attempts-length out (pos_part max_attempts) (send_request out path req) w
      (send_request-length out path req)

-- Where at least one attempt is allowed, a request with retries succeeds only if its last attempt has.
pub do_with_retry-ok :
    (out : Outside) (max_attempts : ℤ) (path : String) (req : Request) (w v : Ingest)
    → do_with_retry out max_attempts (send_request out path req) w ≡ (ok tt, v)
    → (pos_part max_attempts ≡ 0) ⊎ ((u : Ingest) × (send_request out path req u ≡ (ok tt, v)))
unfolding do_with_retry
do_with_retry-ok out max_attempts path req w v h =
    attempts-ok out (pos_part max_attempts) (send_request out path req) w v h
