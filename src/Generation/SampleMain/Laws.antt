-- ===== src/Generation/SampleMain/Laws.antt =====
-- When the sample ends well.
use trustflow.Base.{
  ◌≢◌, ◌⊎◌, String, List, ℕ, ◌==◌, ==_iff, ◌<◌, ◌≤◌, ◌≡◌, ◌↔◌, refl, arith, leb→le, le→leb, Option,
  some, Str, length, length-replicate, replicate, inl, inr,
}
use trustflow.Base.Int.{pos}
use trustflow.Error.{Result, ok, throw, undefined, with_value, enforce, Arg}
use trustflow.External.{External}
use trustflow.Attestation.{Report, report_max_size, json2pb, pb2json, converted}
use trustflow.Verification.Wrapper.{Texts, Outcome, finish, after_try, finish_with}
use trustflow.Verification.Wrapper.Laws.{finish_returns}
use trustflow.Generation.{GenParams}
use trustflow.Generation.Wrapper.{
  Generator, GenCodec, create_attestation_generator, get_attestation_report_size, run_generate,
  generate_attestation_report,
}
use trustflow.Generation.SampleMain.{
  sample_params, call_c_api, run_sample_main, sample_main, sample_msg_len, sample_details_len,
}

cases : {A : Type 0} (r : Result A) → (r ≡ undefined) ⊎ (r ≢ undefined)
cases (ok a) = inr (λ h. cc)
cases (throw x) = inr (λ h. cc)
cases undefined = inl refl

converts :
    {M : Type 0} (convert : M → Option Str) (m : M) (s : Str)
    → convert m ≡ some s
    → pb2json convert m ≡ ok s
unfolding pb2json
converts convert m s h = rw (pb2json, h)

-- With zeros in the buffers.
finish_zeros :
    {A : Type 0} (T : Texts) (body : Result A) (m d : ℕ)
    → body ≢ undefined
    → 0 < m
    → 0 < d
    → (o : Outcome) × (finish T body (replicate m 0, m) (replicate d 0, d) ≡ ok o)
      × ((o.code ≡ 0) ↔ ((a : A) × (body ≡ ok a)))
finish_zeros T body m d defined hm hd =
    let lm : length (replicate {A = ℕ} m 0) ≡ m = length-replicate m 0 in
    let ld : length (replicate {A = ℕ} d 0) ≡ d = length-replicate d 0 in
    let (o, run, t1, t2, code) =
      finish_returns T body (replicate m 0) (replicate d 0) defined (omega (arith, lm))
        (omega (arith, ld)) in
    (o, rw (lm, ld) at run, code)

code_zero :
    (n : ℕ) (template : String) (args : List Arg) → enforce (n == 0) template args ≡ ok tt → n ≡ 0
code_zero n template args h = ground arith

module _ (X : External) (T : Texts) (C : GenCodec) (params_to_json : GenParams → Option Str)
    (tee : Option Generator) where
  call_c_api_iff :
      (params : Str) (n m d : ℕ)
      → 0 < m
      → 0 < d
      → (call_c_api X T C params_to_json tee params n m d ≡ ok tt)
        ↔ ((json : Str) × (run_generate C tee (some params) (some (replicate n 0)) n ≡ ok json))
  unfolding call_c_api generate_attestation_report finish_with finish after_try
  call_c_api_iff params n m d hm hd =
      elim (cases (run_generate C tee (some params) (some (replicate n 0)) n)) [
        | inl undef ↦ (λ h. cc (rw undef at h), λ (json, e). cc)
        | inr defined ↦
            let (o, run, code) =
              finish_zeros T (run_generate C tee (some params) (some (replicate n 0)) n) m d defined
                hm hd in
            (
              λ h. code.0 (code_zero o.code _ _ (rw run at h)),
              λ found. rw (run, (==_iff _ _).1 (code.1 found)),
            )
      ]

  -- The same report by the C API, if it fits.
  same_report :
      (generate : Generator) (report : Report) (json params : Str) (n : ℕ)
      → tee ≡ some generate
      → C.params_of_json params ≡ some (sample_params X)
      → generate (sample_params X) ≡ ok report
      → C.report_to_json report ≡ some json
      → length json ≤ n
      → run_generate C tee (some params) (some (replicate n 0)) n ≡ ok json
  unfolding run_generate create_attestation_generator json2pb pb2json
  same_report generate report json params n e1 e2 e3 e4 fits =
      rw (e2, json2pb, e1, e3, e4, pb2json, le→leb (length json) n fits)

  -- The report by the class, before the C API is called.
  abbrev IsSampled : Generator → Report → Str → Str → Type 0
  IsSampled generate report json params =
      (tee ≡ some generate)
      × (generate (sample_params X) ≡ ok report)
      × (C.report_to_json report ≡ some json)
      × (params_to_json (sample_params X) ≡ some params)

  generator_there :
      (generate : Generator) → create_attestation_generator tee ≡ ok generate → tee ≡ some generate
  unfolding create_attestation_generator
  generator_there generate h = ground arith

  generator_made :
      (generate : Generator) → tee ≡ some generate → create_attestation_generator tee ≡ ok generate
  unfolding create_attestation_generator
  generator_made generate e = rw e

  -- What the C API gives has the size that it is told.
  report_fits :
      (generate : Generator) (report : Report) (json json' params : Str) (n : ℕ)
      → tee ≡ some generate
      → C.params_of_json params ≡ some (sample_params X)
      → generate (sample_params X) ≡ ok report
      → C.report_to_json report ≡ some json
      → run_generate C tee (some params) (some (replicate n 0)) n ≡ ok json'
      → length json ≤ n
  unfolding run_generate json2pb
  report_fits generate report json json' params n e1 e2 e3 e4 h =
      let run =
        rw (e2, json2pb, generator_made generate e1, e3, converts C.report_to_json report json e4)
          at h in
      leb→le (length json) n (ground arith)

  run_sample_main_iff : (run_sample_main X T C params_to_json tee ≡ ok tt) ↔ (
      (generate : Generator) × (report : Report) × (json : Str) × (params : Str) × IsSampled
        generate report json params
      × (call_c_api X T C params_to_json tee params report_max_size sample_msg_len
            sample_details_len
          ≡ ok tt))
  unfolding run_sample_main get_attestation_report_size
  run_sample_main_iff = (
    λ h.
        with_value (create_attestation_generator tee) (λ x e. ground arith) (λ e. ground arith)
          λ generate e1.
            (with_value (generate (sample_params X)) (λ x e. ground arith) (λ e. ground arith)
              λ report e2.
                (with_value (pb2json C.report_to_json report) (λ x e. ground arith)
                  (λ e. ground arith)
                  λ json e3.
                    (with_value (pb2json params_to_json (sample_params X)) (λ x e. ground arith)
                      (λ e. ground arith)
                      λ params e4. (
                        generate,
                        report,
                        json,
                        params,
                        (
                          generator_there generate e1,
                          e2,
                          converted C.report_to_json report json e3,
                          converted params_to_json (sample_params X) params e4,
                        ),
                        ground arith,
                      )))),
    λ (generate, report, json, params, (e1, e2, e3, e4), called). simp (
      generator_made generate e1,
      e2,
      converts C.report_to_json report json e3,
      converts params_to_json (sample_params X) params e4,
      called,
    ),
  )

  sample_main_run :
      (sample_main X T C params_to_json tee ≡ ok (pos 0))
      ↔ (run_sample_main X T C params_to_json tee ≡ ok tt)
  unfolding sample_main
  sample_main_run = (
    λ h.
        with_value {C = run_sample_main X T C params_to_json tee ≡ ok tt}
          (run_sample_main X T C params_to_json tee) (λ x e. ground arith) (λ e. ground arith)
          λ u e. e,
    λ e. rw (sample_main, e),
  )

  -- The sample exits with 0 exactly if the platform has a generator, this makes a report, the report and the parameters
  -- can be written as JSON, and the report's JSON is not longer than 40960 bytes: then the class and the C API both give it.
  pub sample_main_iff :
      ((s : Str)
        → params_to_json (sample_params X) ≡ some s
        → C.params_of_json s ≡ some (sample_params X))
      → (sample_main X T C params_to_json tee ≡ ok (pos 0)) ↔ (
          (generate : Generator) × (report : Report) × (json : Str) × (params : Str) × (tee
            ≡ some generate)
          × (generate (sample_params X) ≡ ok report)
          × (C.report_to_json report ≡ some json)
          × (params_to_json (sample_params X) ≡ some params)
          × (length json ≤ report_max_size))
  sample_main_iff back = (
    λ h.
        let (generate, report, json, params, (e1, e2, e3, e4), called) =
          run_sample_main_iff.0 (sample_main_run.0 h) in
        let (json', e5) =
          (call_c_api_iff params report_max_size sample_msg_len sample_details_len (omega arith)
              (omega arith)).0
            called in
        (
          generate,
          report,
          json,
          params,
          e1,
          e2,
          e3,
          e4,
          report_fits generate report json json' params report_max_size e1 (back params e4) e2 e3
              e5,
        ),
    λ (generate, report, json, params, e1, e2, e3, e4, fits).
        let e5 =
          same_report generate report json params report_max_size e1 (back params e4) e2 e3 fits in
        let called =
          (call_c_api_iff params report_max_size sample_msg_len sample_details_len (omega arith)
              (omega arith)).1
            (json, e5) in
        sample_main_run.1
          (run_sample_main_iff.1 (generate, report, json, params, (e1, e2, e3, e4), called)),
  )
