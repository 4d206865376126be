-- ===== src/Processor/State.antt =====
-- The saved state: `getStateInformation` and `setStateInformation`.
use phonepostmix.Base.{
  ℕ, ◌%◌, ◌≡◌, refl, ap, ◌∙◌, arith, Bool, true, false, not, ◌&&◌, bytes_eq, if◌then◌else◌, List,
  [],
}
use phonepostmix.Engine.{Broadcast, Settings, set_settings}
use phonepostmix.Engine.Addresses.{StringOps, get_preferred_address}
use phonepostmix.Engine.Clients.{JsonOps}
use phonepostmix.Engine.Pairing.{TextOps}
use phonepostmix.Engine.Service.{preferred_address_of}
use phonepostmix.Http.{bytes}
use phonepostmix.Processor.{
  Processor, ValueTreeOps, state_tag, state_of, int_property, settings_from, get_state_information,
  set_state_information,
}
use phonepostmix.Ring.Fifo.{AbstractFifo}
use phonepostmix.Wire.{
  FloatOps, Format, pcm16, pcm24, float32, other, format_of_byte, byte_of_format,
}
use phonepostmix.Wire.Samples.{IsNamed}

-- The documented behaviour of juce::ValueTree and juce::var.
pub record ValueTreeLaws (V : ValueTreeOps) : Type 0 where
  pub type_of_new : (tag : List ℕ) → V.has_type (V.new_tree tag) tag ≡ true
  pub type_of_set :
      (t : V.Tree) (name tag : List ℕ) (v : V.Var)
      → V.has_type (V.set_property t name v) tag ≡ V.has_type t tag
  pub get_set :
      (t : V.Tree) (name : List ℕ) (v default : V.Var)
      → V.get_property (V.set_property t name v) name default ≡ v
  pub get_other :
      (t : V.Tree) (name other : List ℕ) (v default : V.Var)
      → bytes_eq name other ≡ false
      → V.get_property (V.set_property t name v) other default ≡ V.get_property t other default
  pub read_write : (t : V.Tree) → V.read_from_data (V.write_to_stream t) ≡ t
  pub int_lem : (n : ℕ) → V.to_int (V.of_int n) ≡ n
  pub text_lem : (t : List ℕ) → V.to_text (V.of_text t) ≡ t
  pub bool_lem : (b : Bool) → V.to_bool (V.of_bool b) ≡ b

format-byte : (f : Format) → IsNamed f → format_of_byte (byte_of_format f % 256) ≡ f
unfolding format_of_byte byte_of_format
format-byte pcm16 named = refl
format-byte pcm24 named = refl
format-byte float32 named = refl
format-byte (other n) named = absurd named

abbrev settings_of : Format → ℕ → ℕ → ℕ → Settings
settings_of f frames port latency = record {
  format = f;
  frames_per_packet = frames;
  preferred_port = port;
  target_latency_ms = latency;
}

Settings-eq :
    {f g : Format} {a b c d x y : ℕ}
    → f ≡ g
    → a ≡ b
    → c ≡ d
    → x ≡ y
    → settings_of f a c x ≡ settings_of g b d y
Settings-eq {f} {g} {a} {b} {c} {d} {x} {y} p q r s =
    ap (λ k. settings_of k a c x) p
    ∙ ap (λ k. settings_of g k c x) q
    ∙ ap (λ k. settings_of g b k x) r
    ∙ ap (λ k. settings_of g b d k) s

module _ (J : AbstractFifo) (F : FloatOps) (S : JsonOps) (A : StringOps) (T : TextOps) where
  module _ (V : ValueTreeOps) (laws : ValueTreeLaws V) where
    skip :
        {t : V.Tree} {name wanted : List ℕ} {v default x : V.Var}
        → bytes_eq name wanted ≡ false
        → V.get_property t wanted default ≡ x
        → V.get_property (V.set_property t name v) wanted default ≡ x
    skip {t} {name} {wanted} {v} {default} {x} apart more =
        laws.get_other t name wanted v default apart ∙ more

    here :
        {t : V.Tree} {name : List ℕ} {v default : V.Var}
        → V.get_property (V.set_property t name v) name default ≡ v
    here {t} {name} {v} {default} = laws.get_set t name v default

    int_here :
        {t : V.Tree} {name : List ℕ} {default n : ℕ}
        → V.get_property t name (V.of_int default) ≡ V.of_int n
        → int_property J F S A T V t name default ≡ n
    int_here {t} {name} {default} {n} e = ap V.to_int e ∙ laws.int_lem n

    state_of-settings :
        (p : Processor J F S A T)
        → IsNamed p.engine.streaming.settings.format
        → settings_from J F S A T V (state_of J F S A T V p) ≡ p.engine.streaming.settings
    state_of-settings p named =
        Settings-eq
          (ap (λ n. format_of_byte (n % 256))
              (int_here (skip refl (skip refl (skip refl (skip refl (skip refl here))))))
            ∙ format-byte p.engine.streaming.settings.format named)
          (int_here (skip refl (skip refl (skip refl (skip refl here)))))
          (int_here (skip refl (skip refl (skip refl here))))
          (int_here (skip refl (skip refl here)))

    set_tagged :
        {t : V.Tree} {name : List ℕ} {v : V.Var}
        → V.has_type t state_tag ≡ true
        → V.has_type (V.set_property t name v) state_tag ≡ true
    set_tagged {t} {name} {v} e = laws.type_of_set t name state_tag v ∙ e

    state_of-tagged :
        (p : Processor J F S A T) → V.has_type (state_of J F S A T V p) state_tag ≡ true
    state_of-tagged p = set_tagged (
        set_tagged (set_tagged (set_tagged (set_tagged (set_tagged (laws.type_of_new state_tag))))))

    -- A processor with settings and an address taken over, the broadcasts, and the deferred start.
    abbrev pub put :
        Processor J F S A T → Settings → List ℕ → Bool → Processor J F S A T × List Broadcast × Bool
    put q settings address streams =
        let r = set_settings J F q.engine.streaming settings in
        (
          record q { engine = record q.engine { streaming = r.0; preferred_address = address } },
          r.1,
          streams,
        )

    abbrev put_tree : Processor J F S A T → V.Tree → Processor J F S A T × List Broadcast × Bool
    put_tree q state =
        put q (settings_from J F S A T V state)
          (V.to_text (V.get_property state (bytes "address") (V.of_text [])))
          (V.to_bool (V.get_property state (bytes "streaming") (V.of_bool false)))

    abbrev set_tree : Processor J F S A T → V.Tree → Processor J F S A T × List Broadcast × Bool
    set_tree q state = if not (V.has_type state state_tag) then (q, [], false) else put_tree q state

    set_tree-tagged :
        (q : Processor J F S A T) (state : V.Tree) (b : Bool)
        → V.has_type state state_tag ≡ b
        → set_tree q state ≡ (if b then put_tree q state else (q, [], false))
    set_tree-tagged q state true e = ap (λ b. if not b then (q, [], false) else put_tree q state) e
    set_tree-tagged q state false e = ap (λ b. if not b then (q, [], false) else put_tree q state) e

    -- What is restored of `p` in a processor `q`.
    abbrev pub restored :
        Processor J F S A T → Processor J F S A T → Processor J F S A T × List Broadcast × Bool
    restored p q =
        put q p.engine.streaming.settings (preferred_address_of J F S A T p.engine)
          p.engine.streaming.server_running

    -- Where value trees do what is documented, a state that one processor saves, another restores:
    -- its settings, if they name one of the three formats, the address that its URL uses, and
    -- whether to start streaming; a start is deferred just where the first was streaming. A block
    -- without the plugin's tag changes nothing.
    pub set_state_information-get_state_information :
        (p q : Processor J F S A T) (data_bytes : V.Data)
        → IsNamed p.engine.streaming.settings.format
        → (set_state_information J F S A T V (get_state_information J F S A T V p) q ≡ restored p q)
          × (V.has_type (V.read_from_data data_bytes) state_tag ≡ false
              → set_state_information J F S A T V data_bytes q ≡ (q, [], false))
    unfolding get_state_information set_state_information
    set_state_information-get_state_information p q data_bytes named = (
      ap (set_tree q) (laws.read_write (state_of J F S A T V p))
          ∙ set_tree-tagged q (state_of J F S A T V p) true (state_of-tagged p)
          ∙ ap
              (λ s.
                put q s
                  (V.to_text
                    (V.get_property (state_of J F S A T V p) (bytes "address") (V.of_text [])))
                  (V.to_bool (
                    V.get_property (state_of J F S A T V p) (bytes "streaming") (V.of_bool false))))
              (state_of-settings p named)
          ∙ ap
              (λ t. put q p.engine.streaming.settings t (
                V.to_bool
                  (V.get_property (state_of J F S A T V p) (bytes "streaming") (V.of_bool false))))
              (ap V.to_text (skip refl here)
                ∙ laws.text_lem (preferred_address_of J F S A T p.engine))
          ∙ ap (put q p.engine.streaming.settings (preferred_address_of J F S A T p.engine))
              (ap V.to_bool here ∙ laws.bool_lem p.engine.streaming.server_running),
      λ untagged. set_tree-tagged q (V.read_from_data data_bytes) false untagged,
    )

    address-none :
        (p : Processor J F S A T)
        → ((x : List ℕ) → A.contains [] x ≡ false)
        → p.engine.addresses ≡ []
        → preferred_address_of J F S A T p.engine ≡ []
    unfolding get_preferred_address
    address-none p nothing_there none_found =
        let preferred = p.engine.preferred_address in
        let not_there : (not (bytes_eq preferred []) && A.contains [] preferred) ≡ false =
          ground (arith, nothing_there preferred) in
        ap (get_preferred_address A preferred) none_found
        ∙ ap (λ b. if b then preferred else []) not_there

    -- Where value trees do what is documented and an empty list contains nothing, a processor whose
    -- engine has found no address yet, as before its first start, saves an empty address, whatever
    -- address it was given before.
    pub saved_address_lost :
        (p : Processor J F S A T)
        → ((x : List ℕ) → A.contains [] x ≡ false)
        → p.engine.addresses ≡ []
        → V.to_text (
            V.get_property
              (V.read_from_data (get_state_information J F S A T V p))
              (bytes "address")
              (V.of_text []))
          ≡ []
    unfolding get_state_information
    saved_address_lost p nothing_there none_found =
        ap (λ t. V.to_text (V.get_property t (bytes "address") (V.of_text [])))
          (laws.read_write (state_of J F S A T V p))
        ∙ ap V.to_text (skip refl here)
        ∙ laws.text_lem (preferred_address_of J F S A T p.engine)
        ∙ address-none p nothing_there none_found
