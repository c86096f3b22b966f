-- ===== src/Main/Program/Closing.antt =====
-- What main leaves behind, however it ends.
use mathlib.Core.List.{append_assoc}
use xray_exporter.Common.{
  ◌*◌, ◌≡◌, ◌≢◌, refl, sym, ap, ◌∙◌, ◌⊎◌, inl, inr, ◌↔◌, true, false, Option, none, some, List, [],
  ◌∷◌, ◌++◌, arith,
}
use xray_exporter.Text.{Text}
use xray_exporter.Snapshot.Disk.{StoreError}
use xray_exporter.Snapshot.Service.{second}
use xray_exporter.Exporter.Setup.{Exporter, close}
use xray_exporter.GoMap.Keys.{has_text}
use xray_exporter.Main.{
  configure_logging, Settings, settings, Started, disabled, fatal, running, start_billing,
}
use xray_exporter.Main.Server.{Route, new_server}
use xray_exporter.Main.Server.Mux.{is_plain}
use xray_exporter.Main.Server.Paths.{taken, new_server-none_iff}
use xray_exporter.Main.Program.{
  Flags, Wait, parsed, Startup, Action, set_level, print_banner, download_databases, make_exporter,
  close_exporter, Ending, ended, exited, panicked, main, with_flags, main_of, exporter_of,
  bill_and_serve, with_exporter, deferred_close, after, api_token, is_fatal, serve, loop_actions,
}

abbrev pub settings_of : Startup → Flags → Settings
settings_of w f = settings w.parse_duration f.billing w.variables

-- The billing of a startup.
abbrev pub billing_of : Startup → Flags → Started
billing_of w f =
    start_billing w.sorting w.codec w.stored (settings_of w f) (f.scrape_timeout * second)

-- What main does until there is an exporter.
abbrev pub first_actions : Startup → Flags → List Action
first_actions w f =
    set_level (configure_logging w.unicode_lower f.log_level w.log_level)
    ∷ print_banner
    ∷ download_databases f.geoip_dir
    ∷ make_exporter
    ∷ []

serve-ends :
    (listen : Text) (wait : Wait) (o : Option (Text → Option Route))
    → ((serve listen wait o).1 ≢ exited) × (((serve listen wait o).1 ≡ panicked) ↔ (o ≡ none))
unfolding serve
serve-ends listen wait none = ((λ h. ground arith), ((λ h. refl), λ h. refl))
serve-ends listen wait (some server) =
    ((λ h. ground arith), ((λ h. absurd (ground arith)), λ h. absurd (ground arith)))

-- How the part after the exporter is made ends.
bill_and_serve-ends :
    (w : Startup) (f : Flags) (s : Settings) (started : Started)
    → ((err : StoreError) × (started ≡ fatal err) × (bill_and_serve w f s started ≡ ([], exited)))
      ⊎ (((bill_and_serve w f s started).1 ≢ exited)
          × (((bill_and_serve w f s started).1 ≡ panicked)
              ↔ (new_server w.mux f.metrics_path (api_token s started) ≡ none)))
unfolding bill_and_serve is_fatal loop_actions api_token
bill_and_serve-ends w f s disabled =
    inr (serve-ends f.listen w.wait (new_server w.mux f.metrics_path none))
bill_and_serve-ends w f s (fatal err) = inl (err, refl, refl)
bill_and_serve-ends w f s (running service client pusher) =
    inr
      (serve-ends f.listen w.wait (new_server w.mux f.metrics_path (some s.internal_service_token)))

deferred_close-last :
    (e : Exporter) (r : List Action × Ending)
    → r.1 ≢ exited
    → deferred_close e r ≡ (r.0 ++ close_exporter (close e) ∷ [], r.1)
unfolding deferred_close
deferred_close-last e (actions, ended) h = refl
deferred_close-last e (actions, panicked) h = refl
deferred_close-last e (actions, exited) h = absurd (h refl)

deferred_close-exited : (e : Exporter) → deferred_close e ([], exited) ≡ ([], exited)
unfolding deferred_close
deferred_close-exited e = refl

module _ (w : Startup) (f : Flags) (e : Exporter) (given : w.parse_flags ≡ parsed f)
    (no_version : f.version ≡ false) (made : exporter_of w f ≡ some e) where
  main-exporter :
      main w
      ≡ after
          (first_actions w f)
          (deferred_close e (bill_and_serve w f (settings_of w f) (billing_of w f)))
  unfolding main main_of with_flags with_exporter
  main-exporter =
      ap (main_of w) given ∙ (rw (with_flags, no_version) (rw (with_exporter, made) refl))

  -- Once there is an exporter, main exits without closing it only where the snapshot store cannot be
  -- opened; otherwise, after a server error, a signal or a panic, closing it is the last action.
  pub main-closes :
      ((err : StoreError) × (billing_of w f ≡ fatal err) × (main w ≡ (first_actions w f, exited)))
      ⊎ ((before : List Action) × (ending : Ending) × (ending ≢ exited)
          × (main w ≡ (before ++ close_exporter (close e) ∷ [], ending)))
  main-closes =
      let r = bill_and_serve w f (settings_of w f) (billing_of w f) in
      elim (bill_and_serve-ends w f (settings_of w f) (billing_of w f)) [
        | inl (err, why, run) ↦ inl (
          err,
          why,
          main-exporter
              ∙ ap (λ x. after (first_actions w f) (deferred_close e x)) run
              ∙ ap (after (first_actions w f)) (deferred_close-exited e)
              ∙ refl,
        )
        | inr (not_exited, panic) ↦ inr (
          first_actions w f ++ r.0,
          r.1,
          not_exited,
          main-exporter
              ∙ ap (after (first_actions w f)) (deferred_close-last e r not_exited)
              ∙ ap (λ a. (a, r.1)) (sym (append_assoc (first_actions w f) r.0 _)),
        )
      ]

  -- Where the flags are parsed and do not ask for the version, the exporter is made, the metrics path
  -- is plain, and billing does not end the program with an error of its store: main panics exactly when
  -- the metrics path is `/metrics`, `/health` or `/`, or `/v1/snapshots/` with billing on.
  pub main-panics_iff :
      is_plain f.metrics_path ≡ true
      → ((err : StoreError) → billing_of w f ≢ fatal err)
      → ((main w).1 ≡ panicked)
        ↔ (has_text f.metrics_path (taken (api_token (settings_of w f) (billing_of w f))) ≡ true)
  main-panics_iff plain opens =
      let r = bill_and_serve w f (settings_of w f) (billing_of w f) in
      elim (bill_and_serve-ends w f (settings_of w f) (billing_of w f)) [
        | inl (err, why, run) ↦ absurd (opens err why)
        | inr (not_exited, panic) ↦
            let same : (main w).1 ≡ r.1 =
              ap (λ (x : List Action × Ending). x.1)
                (main-exporter
                  ∙ ap (after (first_actions w f)) (deferred_close-last e r not_exited)) in
            let taken_iff =
              new_server-none_iff w.mux f.metrics_path
                (api_token (settings_of w f) (billing_of w f)) plain in
            (λ h. taken_iff.0 (panic.0 (sym same ∙ h)), λ h. same ∙ panic.1 (taken_iff.1 h))
      ]
