-- ===== src/Providers/Signal.antt =====
-- Whether a recording is worth a request: src-tauri/src/providers/stt_provider.rs.
-- A sample of 16 bits is the number of its bits.
use replyline.Prelude.{
  Option, Result, Text, codes, err, map_err, not, refl, suc, zero, ◌++◌, ◌<◌, Bool, Bool-cases,
  List, [], arith, false, if◌then◌else◌, inl, inr, is_empty, leb, leb→le, length, ltb, max, min,
  retain, true, ℕ, ◌&&◌, ◌*◌, ◌+◌, ◌-◌, ◌/◌, ◌↔◌, ◌∙◌, ◌∷◌, ◌≡◌, ◌≤◌, ◌⊎◌,
}
use mathlib.Core.Option
use replyline.Prelude.Unicode.{Unicode}
use replyline.Privacy.{safe_preview}
use replyline.Providers.Budget.{sends}
use replyline.Providers.Stt.{
  Act, SttRequestPolicy, Try, attempts_from, paused, request, send_with_retries, u64_max,
}

abbrev pub min_audible_peak : ℕ
min_audible_peak = 32

abbrev pub min_active_samples : ℕ
min_active_samples = 8

pub record AudioSignalMetrics : Type 0 where
  pub sample_rate_hz : ℕ
  pub channels : ℕ
  pub duration_ms : ℕ
  pub total_samples : ℕ
  pub active_samples : ℕ
  pub peak_abs : ℕ
  pub mean_abs : ℕ

-- `i16::unsigned_abs`.
abbrev pub unsigned_abs : ℕ → ℕ
unsigned_abs sample = if ltb sample 32768 then sample else 65536 - sample

-- The loop over the samples, on the peak, the sum and the active samples so far.
unfoldable pub measure : List ℕ → (peak_abs sum_abs active_samples : ℕ) → ℕ × ℕ × ℕ
measure [] peak_abs sum_abs active_samples = (peak_abs, sum_abs, active_samples)
measure (sample ∷ pcm) peak_abs sum_abs active_samples =
    let absolute = unsigned_abs sample in
    measure pcm (max peak_abs absolute) (min (sum_abs + absolute) u64_max)
      (if leb min_audible_peak absolute then active_samples + 1 else active_samples)

unfoldable pub audio_signal_metrics : List ℕ → AudioSignalMetrics
audio_signal_metrics pcm =
    let (peak_abs, sum_abs, active_samples) = measure pcm 0 0 0 in
    record {
      sample_rate_hz = 16_000;
      channels = 1;
      duration_ms = length pcm * 1000 / 16_000;
      total_samples = length pcm;
      active_samples = active_samples;
      peak_abs = peak_abs;
      mean_abs = if is_empty pcm then 0 else sum_abs / length pcm;
    }

unfoldable pub has_audible_signal : AudioSignalMetrics → Bool
has_audible_signal metrics =
    leb min_audible_peak metrics.peak_abs && leb min_active_samples metrics.active_samples

-- An error's text, redacted; `none` is a panic of the redaction.
unfoldable pub failed_stt_detail : Unicode → Text → Option Text
unfolding safe_preview
failed_stt_detail u error =
    Option.map (λ safe_err. codes "stt: " ++ safe_err) (safe_preview u error 300)

-- The requests, and the status of the response or an error. The traces, the stages and the reading
-- of the response are left out.
unfoldable pub transcribe :
    Unicode → SttRequestPolicy → List ℕ → (ℕ → Try) → List Act × Result ℕ (Option Text)
unfolding has_audible_signal audio_signal_metrics failed_stt_detail send_with_retries
transcribe u policy pcm tries =
    let signal = audio_signal_metrics pcm in
    let (acts, result) = send_with_retries policy tries in
    if not (has_audible_signal signal)
    then (
      [],
      err (failed_stt_detail u (codes "STT_NO_SPEECH: Captured audio contains no audible signal.")),
    )
    else (acts, map_err (failed_stt_detail u) result)

-- The samples that reach the audible peak.
abbrev pub loud : List ℕ → List ℕ
loud pcm = retain (λ sample. leb min_audible_peak (unsigned_abs sample)) pcm

active-loud :
    (pcm : List ℕ) (peak sum active : ℕ)
    → (measure pcm peak sum active).2 ≡ active + length (loud pcm)
unfolding measure
active-loud [] peak sum active = omega arith
active-loud (sample ∷ pcm) peak sum active = elim (Bool-cases (leb 32 (unsigned_abs sample))) [
  | inl high ↦ rw (high, measure) (active-loud pcm _ _ (active + 1) ∙ omega arith)
  | inr low ↦ rw (low, measure) (active-loud pcm _ _ active)
]

keeps_loud :
    (sample : ℕ) (pcm : List ℕ) (peak : ℕ)
    → (1 ≤ length (loud (sample ∷ pcm))) ⊎ (32 ≤ peak)
    → leb 32 (unsigned_abs sample) ≡ false
    → (1 ≤ length (loud pcm)) ⊎ (32 ≤ max peak (unsigned_abs sample))
keeps_loud sample pcm peak (inl h) low = inl (rw low at h)
keeps_loud sample pcm peak (inr h) low = inr (omega arith)

peak-loud :
    (pcm : List ℕ) (peak sum active : ℕ)
    → (1 ≤ length (loud pcm)) ⊎ (32 ≤ peak)
    → 32 ≤ (measure pcm peak sum active).0
unfolding measure
peak-loud [] peak sum active h = ground arith
peak-loud (sample ∷ pcm) peak sum active h = elim (Bool-cases (leb 32 (unsigned_abs sample))) [
  | inl high ↦ peak-loud pcm _ _ _ (inr (omega (arith, leb→le 32 (unsigned_abs sample) high)))
  | inr low ↦ peak-loud pcm _ _ _ (keeps_loud sample pcm peak h low)
]

has_audible_signal-loud :
    (pcm : List ℕ)
    → (has_audible_signal (audio_signal_metrics pcm) ≡ true) ↔ (8 ≤ length (loud pcm))
unfolding has_audible_signal audio_signal_metrics
has_audible_signal-loud pcm = ground (arith, active-loud pcm 0 0 0, peak-loud pcm 0 0 0)

asks_once :
    (policy : SttRequestPolicy) (try : Try) (left : Bool) (again : List Act × Result ℕ Text)
    → leb policy.total_budget_ms try.elapsed_ms ≡ false
    → 1 ≤ sends (request policy try left again).0
unfolding request
asks_once policy try left again h = rw (h, request) (omega arith)

-- The first attempt has no pause before it.
sends_first :
    (policy : SttRequestPolicy) (left : ℕ) (tries : ℕ → Try)
    → leb policy.total_budget_ms (tries 0).elapsed_ms ≡ false
    → 1 ≤ sends (attempts_from policy left 0 tries).0
unfolding attempts_from paused
sends_first policy zero tries h = asks_once policy (tries 0) false ([], err []) h
sends_first policy (suc left) tries h = asks_once policy (tries 0) true _ h

-- For a recording, if the budget is not used up before the first attempt: requests are sent exactly
-- if at least eight of its samples reach the audible peak. They and their outcome are then those of
-- the retries, and otherwise the error says that there was no speech.
pub transcribe_iff :
    (u : Unicode) (policy : SttRequestPolicy) (pcm : List ℕ) (tries : ℕ → Try)
    → leb policy.total_budget_ms (tries 0).elapsed_ms ≡ false
    → let (acts, r) = transcribe u policy pcm tries in
      ((1 ≤ sends acts) ↔ (8 ≤ length (loud pcm)))
      × (8 ≤ length (loud pcm)
          → (acts ≡ (send_with_retries policy tries).0)
            × (r ≡ map_err (failed_stt_detail u) (send_with_retries policy tries).1))
      × (length (loud pcm) < 8
          → r
            ≡ err (
                failed_stt_detail u
                  (codes "STT_NO_SPEECH: Captured audio contains no audible signal.")))
unfolding transcribe send_with_retries
transcribe_iff u policy pcm tries h =
    let (heard, speaks) = has_audible_signal-loud pcm in
    elim (Bool-cases (has_audible_signal (audio_signal_metrics pcm))) [
      | inl audible ↦
          let sent = sends_first policy policy.max_retries tries h in
          rw (audible, transcribe)
            (
              (λ _. heard audible, λ _. sent),
              λ _. (refl, refl),
              λ few. absurd (omega (arith, heard audible)),
            )
      | inr silent ↦
          rw (silent, transcribe)
            (
              (λ some_sent. absurd (omega arith), λ many. cc (speaks many)),
              λ many. cc (speaks many),
              λ _. refl,
            )
    ]
