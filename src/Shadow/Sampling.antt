-- ===== src/Shadow/Sampling.antt =====
-- src/shadow.rs: how many draws sample a request.
use svc_resillience_rs.Prelude.{
  ℕ, zero, suc, ◌≤◌, ◌<◌, ◌≡◌, refl, ◌∙◌, arith, ltb, ok, count_below, min,
}
use svc_resillience_rs.Weighted.{count_below-ext}
use svc_resillience_rs.Shadow.{
  ShadowSampling, shadow_parts_per_million, sampling_new, sample_with, sampled_or_not,
}

count_below-ltb : (n k : ℕ) → count_below n (λ c. ltb c k) ≡ min n k
count_below-ltb zero k = omega arith
count_below-ltb (suc n) k = ground (arith, count_below-ltb n k)

samples :
    (s : ShadowSampling) (c : ℕ)
    → s.parts_per_million ≤ shadow_parts_per_million
    → c < shadow_parts_per_million
    → sampled_or_not (sample_with s (λ n. c)) ≡ ltb c s.parts_per_million
unfolding sample_with sampled_or_not
samples s c b l = ground arith

sampled_draws :
    (s : ShadowSampling) (n : ℕ)
    → s.parts_per_million ≤ shadow_parts_per_million
    → n ≡ shadow_parts_per_million
    → count_below n (λ c. sampled_or_not (sample_with s (λ m. c))) ≡ s.parts_per_million
sampled_draws s n b e = omega (
  arith,
  count_below-ext n _ (λ c. ltb c s.parts_per_million) (λ c l. samples s c b (omega arith)),
  count_below-ltb n s.parts_per_million,
)

accepted :
    (parts : ℕ) (s : ShadowSampling)
    → sampling_new parts ≡ ok s
    → (s.parts_per_million ≡ parts) × (parts ≤ shadow_parts_per_million)
unfolding sampling_new
accepted parts s h = ground arith

-- Sampling is exact. A sampling that `ShadowSampling::new` accepts gives no error on a draw below a
-- million, and samples it exactly if it lies below the parts per million; so of the million draws
-- it samples as many as its parts per million.
pub sample_with-exact :
    (parts : ℕ) (s : ShadowSampling) (draw : ℕ → ℕ)
    → sampling_new parts ≡ ok s
    → draw shadow_parts_per_million < shadow_parts_per_million
    → (sample_with s draw ≡ ok (ltb (draw shadow_parts_per_million) parts))
      × (count_below shadow_parts_per_million (λ c. sampled_or_not (sample_with s (λ n. c)))
          ≡ parts)
sample_with-exact parts s draw h l =
    let (same, bounded) = accepted parts s h in
    (
      unfold sample_with in ground arith,
      sampled_draws s shadow_parts_per_million (omega arith) refl ∙ same,
    )
