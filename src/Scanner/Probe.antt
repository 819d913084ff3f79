-- ===== src/Scanner/Probe.antt =====
-- The two measurements of an address: its latency, and its speed down and up. The answers of the
-- HTTP client are those of a world.
use xray_knife.Prelude.{
  ℕ, ◌≡◌, refl, ◌⊎◌, inl, inr, Bool, true, ◌||◌, ◌++◌, Option, none, some, if◌then◌else◌, ltb, leb,
  arith, Bool-cases, ◌<◌, ◌≤◌,
}
use xray_knife.Text.{Text, bytes, is_empty, decimal}
use xray_knife.Core.{Fallible, ok, err, Fallible-cases}
use xray_knife.Scanner.{Speeds, ScanResult, ScannerConfig, fresh_result}

-- What a request to the trace page answers: a status, then a body, then the time it took.
pub record LatencyWorld : Type 0 where
  pub new_request : Fallible (Unit {0})
  pub create_client : Fallible (Unit {0})
  pub request : Fallible ℕ
  pub read_body : Fallible (Unit {0})
  pub elapsed : ℕ

abbrev pub bad_status : ℕ → Bool
bad_status code = ltb code 200 || leb 300 code

-- `scanIPForLatency` as the latency that it measures or the error that it notes.
unfoldable pub measure_latency : LatencyWorld → ScannerConfig → Fallible ℕ
measure_latency w c = elim w.new_request [
  | err e ↦ err (bytes "failed to create request: " ++ e)
  | ok _ ↦ elim (if is_empty c.config_link then ok tt else w.create_client) [
    | err e ↦ err (bytes "failed creating client from config for latency test: " ++ e)
    | ok _ ↦ elim w.request [
      | err e ↦ err (bytes "latency test failed: " ++ e)
      | ok code ↦
          if bad_status code
          then err (bytes "bad status code: " ++ decimal code)
          else elim w.read_body [
            | err e ↦ err (bytes "failed to read body: " ++ e)
            | ok _ ↦ ok w.elapsed
          ]
    ]
  ]
]

unfoldable pub scan_ip_for_latency :
    {S : Type 0} → Speeds S → LatencyWorld → ScannerConfig → Text → ScanResult S
unfolding measure_latency
scan_ip_for_latency sp w c ip =
    let r = fresh_result sp ip in
    elim (measure_latency w c) [
      | ok latency ↦ record {
        ip = r.ip;
        latency = latency;
        latency_ms = r.latency_ms;
        down_speed = r.down_speed;
        up_speed = r.up_speed;
        error = none;
        error_str = r.error_str;
      }
      | err e ↦ record {
        ip = r.ip;
        latency = r.latency;
        latency_ms = r.latency_ms;
        down_speed = r.down_speed;
        up_speed = r.up_speed;
        error = some e;
        error_str = r.error_str;
      }
    ]

-- One transfer: what creating the request, sending it, its status and its body answer, and the
-- speed over the time that it took.
pub record Transfer (S : Type 0) : Type 0 where
  pub new_request : Fallible (Unit {0})
  pub request : Fallible ℕ
  pub status : Text
  pub copy : Fallible (Unit {0})
  pub took_time : Bool
  pub speed : S

pub record SpeedWorld (S : Type 0) : Type 0 where
  pub create_client : Fallible (Unit {0})
  pub down : Transfer S
  pub cancelled : Bool
  pub up : Transfer S

pub record SpeedMeasured (S : Type 0) : Type 0 where
  pub down_speed : S
  pub up_speed : S
  pub error : Option Text

module _ {S : Type 0} (sp : Speeds S) where
  abbrev pub speed_of : Transfer S → S
  speed_of t = if t.took_time then t.speed else sp.zero_speed

  -- The download checks the status before it reads the body.
  unfoldable pub download : Transfer S → Fallible S
  download t = elim t.new_request [
    | err e ↦ err (bytes "failed to create download request: " ++ e)
    | ok _ ↦ elim t.request [
      | err e ↦ err (bytes "download test failed: " ++ e)
      | ok code ↦
          if bad_status code then err (bytes "download status: " ++ t.status) else elim t.copy [
            | err e ↦ err (bytes "download stream copy: " ++ e)
            | ok _ ↦ ok (speed_of t)
          ]
    ]
  ]

  -- The upload reads the body first.
  unfoldable pub upload : Transfer S → Fallible S
  upload t = elim t.new_request [
    | err e ↦ err (bytes "failed to create upload request: " ++ e)
    | ok _ ↦ elim t.request [
      | err e ↦ err (bytes "upload test failed: " ++ e)
      | ok code ↦ elim t.copy [
        | err e ↦ err (bytes "upload response drain: " ++ e)
        | ok _ ↦
            if bad_status code then err (bytes "upload status: " ++ t.status) else ok (speed_of t)
      ]
    ]
  ]

  abbrev pub nothing_measured : Text → SpeedMeasured S
  nothing_measured e = record {
    down_speed = sp.zero_speed;
    up_speed = sp.zero_speed;
    error = some e;
  }

  abbrev pub half_measured : S → Text → SpeedMeasured S
  half_measured down e = record { down_speed = down; up_speed = sp.zero_speed; error = some e }

  unfoldable pub measure_speed : SpeedWorld S → ScannerConfig → SpeedMeasured S
  unfolding download upload
  measure_speed w c = elim (if is_empty c.config_link then ok tt else w.create_client) [
    | err e ↦ nothing_measured (bytes "failed to create speedtest client from config: " ++ e)
    | ok _ ↦ elim (download w.down) [
      | err e ↦ nothing_measured e
      | ok down ↦
          if w.cancelled
          then half_measured down (bytes "context canceled")
          else elim (upload w.up) [
            | err e ↦ half_measured down e
            | ok up ↦ record { down_speed = down; up_speed = up; error = none }
          ]
    ]
  ]

-- A good answer of the trace page, read to its end.
abbrev pub IsAnswered : LatencyWorld → ScannerConfig → Type 0
IsAnswered w c =
    (w.new_request ≡ ok tt)
    × ((is_empty c.config_link ≡ true) ⊎ (w.create_client ≡ ok tt))
    × ((code : ℕ) × (w.request ≡ ok code) × (200 ≤ code) × (code < 300))
    × (w.read_body ≡ ok tt)

client_built :
    (link : Text) (made : Fallible (Unit {0})) (v : Unit {0})
    → (if is_empty link then ok tt else made) ≡ ok v
    → (is_empty link ≡ true) ⊎ (made ≡ ok tt)
client_built link made v h = ground arith

measure_latency_cases :
    (w : LatencyWorld) (c : ScannerConfig)
    → (IsAnswered w c × (measure_latency w c ≡ ok w.elapsed))
      ⊎ ((¬ IsAnswered w c) × ((e : Text) × (measure_latency w c ≡ err e)))
unfolding measure_latency
measure_latency_cases w c = elim (Fallible-cases w.new_request) [
  | inr (e, a) ↦
      inr (λ h. ground (arith, h.0), (bytes "failed to create request: " ++ e, ground arith))
  | inl (u, a) ↦ elim (Fallible-cases (if is_empty c.config_link then ok tt else w.create_client)) [
    | inr (e, b) ↦ inr (
      λ h. ground (arith, h.1),
      (bytes "failed creating client from config for latency test: " ++ e, ground arith),
    )
    | inl (v, b) ↦ elim (Fallible-cases w.request) [
      | inr (e, d) ↦
          inr (λ h. ground (arith, h.2), (bytes "latency test failed: " ++ e, ground arith))
      | inl (code, d) ↦ elim (Bool-cases (bad_status code)) [
        | inl f ↦
            inr
              (λ h. ground (arith, h.2), (bytes "bad status code: " ++ decimal code, ground arith))
        | inr f ↦ elim (Fallible-cases w.read_body) [
          | inr (e, g) ↦
              inr (λ h. ground (arith, h.3), (bytes "failed to read body: " ++ e, ground arith))
          | inl (t, g) ↦ inl (
            (
              a,
              client_built c.config_link w.create_client v b,
              (code, d, ground arith, ground arith),
              g,
            ),
            ground arith,
          )
        ]
      ]
    ]
  ]
]

-- The scan of an address has no error exactly when the request could be made, the client of the
-- config link, if there is one, was built, the page answered with a status from 200 to 299 and its
-- body could be read; its latency is then the time that this took, and it is 0 with an error.
pub scan_ip_for_latency_lem :
    {S : Type 0} (sp : Speeds S) (w : LatencyWorld) (c : ScannerConfig) (ip : Text)
    → let r = scan_ip_for_latency sp w c ip in
      (r.ip ≡ ip)
      × ((IsAnswered w c × (r.error ≡ none) × (r.latency ≡ w.elapsed))
          ⊎ ((¬ IsAnswered w c) × ((e : Text) × (r.error ≡ some e)) × (r.latency ≡ 0)))
unfolding scan_ip_for_latency
scan_ip_for_latency_lem sp w c ip = elim (measure_latency_cases w c) [
  | inl (a, e) ↦ rw (scan_ip_for_latency, e) (refl, inl (a, refl, refl))
  | inr (a, (m, e)) ↦ rw (scan_ip_for_latency, e) (refl, inr (a, (m, refl), refl))
]
