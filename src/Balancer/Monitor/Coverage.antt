-- ===== src/Balancer/Monitor/Coverage.antt =====
-- Which monitor each backend of a group gets.
use Prim.Native.String.{◌++◌ as text_append}
use llm_proxy.Base.{
  ◌≡◌, refl, sym, ap, ◌∙◌, subst, Bool, true, false, not, List, [], ◌∷◌, ◌++◌, Option, none, some,
  String, any, text_eq, Bool-cases, Option-cases, inl, inr, ◌⊎◌, In, here, there, All, arith,
}
use llm_proxy.Base.Int.{ℤ, is_pos}
use llm_proxy.Config.Types.{Config, Backend, GroupConfig, RecoveryConfig, AliveProbe}
use llm_proxy.Config.Lookup.{group_backends, get_scrape_path}
use llm_proxy.Config.Cascade.{get_recovery, get_alive_config, over_recovery, default_recovery}
use llm_proxy.Balancer.Monitor.{
  Watched, Monitor, scraping, checking, probing, recovering, watched_id, no_probes, disabled,
  new_scrape_job, new_health_job, new_alive_job, new_recovery_job, with_metrics_retry,
  scrape_config, has_page, alive_enabled, has_probe, start_health, start_scrape, start_monitor,
  start_alive, start_recovery, start_each, watched_backends, start_monitoring,
}
use llm_proxy.Balancer.Select.Least.{In-append_left, In-append_right}
use llm_proxy.Balancer.Monitor.Owners.{
  Owns, IsOwned, watched_backends-IsOwned, group_backends-In, backend_map-Has,
}

-- The seconds that a monitor leaves an unhealthy backend alone.
abbrev pub delay_of : Monitor → ℤ
delay_of (scraping j) = j.retry_delay_sec
delay_of (checking j) = j.retry_delay_sec
delay_of (probing j) = j.retry_delay_sec
delay_of (recovering j) = j.cooldown_sec

abbrev pub can_probe : Monitor → Bool
can_probe (probing j) = not (no_probes j.probes)
can_probe _ = true

abbrev pub probes_of : Monitor → List AliveProbe
probes_of (probing j) = j.probes
probes_of _ = []

over_recovery-pos :
    (n c : RecoveryConfig)
    → is_pos c.retry_delay_sec ≡ true
    → is_pos (over_recovery n c).retry_delay_sec ≡ true
unfolding over_recovery
over_recovery-pos n c h = elim (Bool-cases (is_pos n.retry_delay_sec)) [
  | inl e ↦ rw e e
  | inr e ↦ rw e h
]

module _ {F : Type 0} where
  -- A monitor of this backend, with the retry delay and the alive probes of this group.
  pub record IsGuard (cfg : Config F) (g : GroupConfig F) (id : String) (m : Monitor) : Type 0 where
    pub watched : watched_id m ≡ id
    pub delay : delay_of m ≡ (get_recovery cfg (some g)).retry_delay_sec
    pub able : can_probe m ≡ true
    pub asks : (probes_of m ≡ []) ⊎ (probes_of m ≡ (get_alive_config g).probes)

  start_each-In :
      (start : Watched F → Option Monitor) (ws : List (Watched F)) (w : Watched F) (m : Monitor)
      → In w ws
      → start w ≡ some m
      → In m (start_each start ws)
  unfolding start_each
  start_each-In start [] w m i e = elim i [ ]
  start_each-In start (v ∷ ws) w m (here q) e =
      let e' : start v ≡ some m = ap start q ∙ e in rw (e', start_each) (here refl)
  start_each-In start (v ∷ ws) w m (there i) e = elim (Option-cases (start v)) [
    | inl n ↦ rw (n, start_each) (start_each-In start ws w m i e)
    | inr (k, n) ↦ rw (n, start_each) (there (start_each-In start ws w m i e))
  ]

  with_metrics_retry-kept :
      (cfg : Config F) (w : Watched F) (scrape : Option (GroupConfig F))
      → let j = with_metrics_retry cfg scrape (new_health_job cfg w) in
        (j.id ≡ w.id) × (j.retry_delay_sec ≡ (get_recovery cfg (some w.first)).retry_delay_sec)
  unfolding with_metrics_retry new_health_job
  with_metrics_retry-kept cfg w none = (refl, refl)
  with_metrics_retry-kept cfg w (some scrape) = (refl, refl)

  start_health-IsGuard :
      (cfg : Config F) (w : Watched F) (scrape : Option (GroupConfig F))
      → disabled w.first.health_check.enabled ≡ false
      → (m : Monitor) × (start_health cfg w scrape ≡ some m) × IsGuard cfg w.first w.id m
  unfolding start_health
  start_health-IsGuard cfg w scrape e =
      let (i, d) = with_metrics_retry-kept cfg w scrape in
      (
        checking (with_metrics_retry cfg scrape (new_health_job cfg w)),
        rw e refl,
        record { watched = i; delay = d; able = refl; asks = inl refl },
      )

  start_scrape-IsGuard :
      (cfg : Config F) (fetch : String → Option String) (w : Watched F)
      (scrape : Option (GroupConfig F))
      → disabled w.first.health_check.enabled ≡ false
      → (m : Monitor) × (start_scrape cfg fetch w scrape ≡ some m) × IsGuard cfg w.first w.id m
  unfolding start_scrape new_scrape_job
  start_scrape-IsGuard cfg fetch w none e = start_health-IsGuard cfg w none e
  start_scrape-IsGuard cfg fetch w (some g) e =
      elim (Bool-cases (has_page (fetch (text_append w.url (get_scrape_path g))))) [
        | inl p ↦ (
          scraping (new_scrape_job cfg w g),
          rw p refl,
          record { watched = refl; delay = refl; able = refl; asks = inl refl },
        )
        | inr p ↦ rw p (start_health-IsGuard cfg w (some g) e)
      ]

  start_alive-IsGuard :
      (cfg : Config F) (w : Watched F)
      → alive_enabled w.first ≡ true
      → (m : Monitor) × (start_alive cfg w ≡ some m) × IsGuard cfg w.first w.id m
  unfolding start_alive alive_enabled new_alive_job
  start_alive-IsGuard cfg w e = (
    probing (new_alive_job cfg w),
    rw e refl,
    record { watched = refl; delay = refl; able = ground arith; asks = inr refl },
  )

  get_recovery-pos :
      (cfg : Config F) (g : GroupConfig F)
      → is_pos (get_recovery cfg (some g)).retry_delay_sec ≡ true
  unfolding get_recovery
  get_recovery-pos cfg g =
      let base = over_recovery-pos cfg.load_balancing.recovery default_recovery refl in
      elim (Option-cases g.monitoring) [
        | inl n ↦ rw (n, get_recovery) base
        | inr (m, n) ↦ elim (Option-cases m.recovery) [
          | inl k ↦ rw (n, k, get_recovery) base
          | inr (r, k) ↦
              rw (n, k, get_recovery)
                (over_recovery-pos r (over_recovery cfg.load_balancing.recovery default_recovery)
                  base)
        ]
      ]

  any_same :
      (g : GroupConfig F) (gs : List (GroupConfig F))
      → All (λ h. h ≡ g) gs
      → has_probe g ≡ false
      → any has_probe gs ≡ false
  any_same g [] h e = refl
  any_same g (x ∷ gs) h e = rw (h.0, e) (any_same g gs h.1 e)

  start_recovery-IsGuard :
      (cfg : Config F) (w : Watched F)
      → any has_probe (w.first ∷ w.rest) ≡ false
      → (m : Monitor) × (start_recovery cfg w ≡ some m) × IsGuard cfg w.first w.id m
  unfolding start_recovery new_recovery_job
  start_recovery-IsGuard cfg w e =
      let d : (new_recovery_job cfg w).cooldown_sec
          ≡ (get_recovery cfg (some w.first)).retry_delay_sec =
        rw (get_recovery-pos cfg w.first) refl in
      (
        recovering (new_recovery_job cfg w),
        rw e refl,
        record { watched = refl; delay = d; able = refl; asks = inl refl },
      )

  -- A backend all of whose groups are one group gets a monitor.
  start-IsGuard :
      (cfg : Config F) (fetch : String → Option String) (w : Watched F)
      → In w (watched_backends cfg)
      → All (λ h. h ≡ w.first) w.rest
      → (m : Monitor) × In m (start_monitoring cfg fetch) × IsGuard cfg w.first w.id m
  unfolding start_monitoring start_monitor has_probe
  start-IsGuard cfg fetch w i same =
      let ws = watched_backends cfg in
      let scrapers = start_each (start_monitor cfg fetch) ws in
      let probers = start_each (start_alive cfg) ws in
      let recoverers = start_each (start_recovery cfg) ws in
      elim (Bool-cases (disabled w.first.health_check.enabled)) [
        | inr on ↦
            let (m, e, g) =
              start_scrape-IsGuard cfg fetch w (scrape_config (w.first ∷ w.rest)) on in
            (
              m,
              In-append_left scrapers (probers ++ recoverers)
                  (start_each-In (start_monitor cfg fetch) ws w m i e),
              g,
            )
        | inl off ↦ elim (Bool-cases (alive_enabled w.first)) [
          | inl on ↦
              let (m, e, g) = start_alive-IsGuard cfg w on in
              (
                m,
                In-append_right scrapers (probers ++ recoverers) (
                    In-append_left probers recoverers (start_each-In (start_alive cfg) ws w m i e)),
                g,
              )
          | inr none_on ↦
              let unprobed : has_probe w.first ≡ false = ground arith in
              let (m, e, g) =
                start_recovery-IsGuard cfg w
                  (rw unprobed (any_same w.first w.rest same unprobed)) in
              (
                m,
                In-append_right scrapers (probers ++ recoverers) (
                    In-append_right probers recoverers
                      (start_each-In (start_recovery cfg) ws w m i e)),
                g,
              )
        ]
      ]

  -- No two backends have one id, and no group name has two settings.
  pub record IsUnambiguous (cfg : Config F) : Type 0 where
    pub one_backend : (a b : Backend) → In a cfg.backends → In b cfg.backends → a.id ≡ b.id → a ≡ b
    pub one_group :
        (name : String) (g h : GroupConfig F)
        → In (name, g) cfg.groups
        → In (name, h) cfg.groups
        → g ≡ h

  Owns-same :
      (cfg : Config F) (be : Backend) (g h : GroupConfig F)
      → IsUnambiguous cfg
      → In be cfg.backends
      → In (be.group, g) cfg.groups
      → Owns cfg be.id h
      → h ≡ g
  Owns-same cfg be g h u i k o =
      let same : o.backend ≡ be = u.one_backend o.backend be o.known i o.same_id in
      u.one_group be.group h g (subst (λ (b : Backend). In (b.group, h) cfg.groups) same o.grouped)
        k

  All-Owns :
      (cfg : Config F) (be : Backend) (g : GroupConfig F) (hs : List (GroupConfig F))
      → ((h : GroupConfig F) → Owns cfg be.id h → h ≡ g)
      → All (Owns cfg be.id) hs
      → All (λ h. h ≡ g) hs
  All-Owns cfg be g [] same o = tt
  All-Owns cfg be g (h ∷ hs) same o = (same h o.0, All-Owns cfg be g hs same o.1)

  All-In :
      (cfg : Config F) (ws : List (Watched F)) (w : Watched F)
      → All (IsOwned cfg) ws
      → In w ws
      → IsOwned cfg w
  All-In cfg [] w h i = elim i [ ]
  All-In cfg (v ∷ ws) w h (here e) = subst (IsOwned cfg) e h.0
  All-In cfg (v ∷ ws) w h (there i) = All-In cfg ws w h.1 i

  -- Every backend of a configured group gets a monitor with its group's retry delay.
  pub start_monitoring-IsGuard :
      (cfg : Config F) (fetch : String → Option String) (name : String) (g : GroupConfig F)
      (be : Backend)
      → IsUnambiguous cfg
      → In (name, g) cfg.groups
      → In be (group_backends cfg name)
      → (m : Monitor) × In m (start_monitoring cfg fetch) × IsGuard cfg g be.id m
  unfolding watched_backends
  start_monitoring-IsGuard cfg fetch name g be u i k =
      let (w, at, e) = backend_map-Has cfg be name g cfg.groups [] i k in
      let owned = All-In cfg (watched_backends cfg) w (watched_backends-IsOwned cfg) at in
      let (known, n) = group_backends-In cfg name be k in
      let settled = λ (h : GroupConfig F) (o : Owns cfg be.id h).
        Owns-same cfg be g h u known (subst (λ (l : String). In (l, g) cfg.groups) (sym n) i) o in
      let (one, others) = subst (λ id. Owns cfg id w.first × All (Owns cfg id) w.rest) e owned in
      let f : w.first ≡ g = settled w.first one in
      let same =
        subst (λ x. All (λ h. h ≡ x) w.rest) (sym f) (All-Owns cfg be g w.rest settled others) in
      let (m, launched, guard) = start-IsGuard cfg fetch w at same in
      (m, launched, subst (λ id. IsGuard cfg g id m) e (subst (λ h. IsGuard cfg h w.id m) f guard))
