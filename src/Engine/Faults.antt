-- ===== src/Engine/Faults.antt =====
-- `saveFault` of apps/collector/src/fault.ts over the observations of one outage.
use ai.Common.{
  ◌≡◌, refl, sym, ap, ◌∙◌, String, str_eq, eq_refl, true, false, ◌&&◌, Option, none, some, List, [],
  ◌∷◌, value_or, All, All-imp, if◌then◌else◌,
}
use ai.Engine.{FaultCode, auth_revoked, archive_unreachable, CaptureFault, code_eq, save_fault}

-- The file after the observations of a list, in order.
unfoldable pub save_all : List CaptureFault → CaptureFault → CaptureFault
save_all [] record_read = record_read
save_all (f ∷ fs) record_read = save_all fs (save_fault f (some record_read))

-- The last of the instants that were observed.
unfoldable pub last_observed : List CaptureFault → Option String → Option String
last_observed [] o = o
last_observed (f ∷ fs) o = last_observed fs (some (value_or f.last_observed_at f.since))

code_eq_refl : (c : FaultCode) → code_eq c c ≡ true
code_eq_refl auth_revoked = refl
code_eq_refl archive_unreachable = refl

same_outage :
    (prior f : CaptureFault)
    → f.code ≡ prior.code
    → f.url ≡ prior.url
    → (code_eq prior.code f.code && str_eq prior.url f.url) ≡ true
same_outage prior f c u =
    ap (λ x. code_eq prior.code x && str_eq prior.url f.url) c
    ∙ ap (λ x. code_eq prior.code prior.code && str_eq prior.url x) u
    ∙ ap (λ b. b && str_eq prior.url prior.url) (code_eq_refl prior.code)
    ∙ eq_refl prior.url

-- While the observations are of the fault and the archive that the file records, the file keeps the
-- start of the outage, its code and its archive, and its last observation is that of the last of them.
pub save_all-since :
    (prior : CaptureFault) (fs : List CaptureFault)
    → All (λ (f : CaptureFault). (f.code ≡ prior.code) × (f.url ≡ prior.url)) fs
    → ((save_all fs prior).since ≡ prior.since)
      × ((save_all fs prior).last_observed_at ≡ last_observed fs prior.last_observed_at)
      × ((save_all fs prior).code ≡ prior.code)
      × ((save_all fs prior).url ≡ prior.url)
unfolding save_all last_observed save_fault
save_all-since prior [] h = (refl, refl, refl, refl)
save_all-since prior (f ∷ fs) h =
    let here = h.0 in
    let ih =
      save_all-since (save_fault f (some prior)) fs
        (All-imp _ _ fs (λ g e. (e.0 ∙ sym here.0, e.1 ∙ sym here.1)) h.1) in
    (
      ih.0 ∙ ap (λ b. if b then prior.since else f.since) (same_outage prior f here.0 here.1),
      ih.1,
      ih.2 ∙ here.0,
      ih.3 ∙ here.1,
    )

-- A fault of another code, or of another archive, starts an outage of its own.
pub save_fault-other :
    (prior f : CaptureFault)
    → (code_eq prior.code f.code && str_eq prior.url f.url) ≡ false
    → ((save_fault f (some prior)).since ≡ f.since) × ((save_fault f none).since ≡ f.since)
unfolding save_fault
save_fault-other prior f h = (ap (λ b. if b then prior.since else f.since) h, refl)
