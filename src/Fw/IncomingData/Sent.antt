-- ===== src/Fw/IncomingData/Sent.antt =====
-- The Data that `onIncomingData` sends.
use mathlib.Core.List.{append-nil, append_assoc}
use nfd_qo_s.Base.{
  ℕ, ◌≡◌, refl, sym, ap, ◌∙◌, Bool, true, false, not, ◌&&◌, List, [], ◌∷◌, ◌++◌, ◌==◌,
  if◌then◌else◌,
}
use nfd_qo_s.Fw.World.{
  count_up, Effect, out_interest, out_data, out_nack, signal_satisfy, signal_expire, pit_delete,
  to_strategy, World, Env,
}
use nfd_qo_s.Fw.IncomingData.{is_back, send_all}
use nfd_qo_s.Cs.Entry.{Data}
use nfd_qo_s.Fw.Forwarder.{emit, on_outgoing_data}

-- The Data that went out, with its face.
unfoldable pub data_sent : List Effect → List (ℕ × Data)
data_sent [] = []
data_sent (out_data f d ∷ es) = (f, d) ∷ data_sent es
data_sent (out_interest f i ∷ es) = data_sent es
data_sent (out_nack f i reason ∷ es) = data_sent es
data_sent (signal_satisfy f d ∷ es) = data_sent es
data_sent (signal_expire ∷ es) = data_sent es
data_sent (pit_delete ∷ es) = data_sent es
data_sent (to_strategy t ∷ es) = data_sent es

data_sent-append : (es fs : List Effect) → data_sent (es ++ fs) ≡ data_sent es ++ data_sent fs
unfolding data_sent
data_sent-append [] fs = refl
data_sent-append (out_data f d ∷ es) fs = ap (◌∷◌ (f, d)) (data_sent-append es fs)
data_sent-append (out_interest f i ∷ es) fs = data_sent-append es fs
data_sent-append (out_nack f i reason ∷ es) fs = data_sent-append es fs
data_sent-append (signal_satisfy f d ∷ es) fs = data_sent-append es fs
data_sent-append (signal_expire ∷ es) fs = data_sent-append es fs
data_sent-append (pit_delete ∷ es) fs = data_sent-append es fs
data_sent-append (to_strategy t ∷ es) fs = data_sent-append es fs

-- An effect that sends no Data.
pub data_sent-quiet :
    (es : List Effect) (e : Effect)
    → data_sent (e ∷ []) ≡ []
    → data_sent (es ++ e ∷ []) ≡ data_sent es
data_sent-quiet es e h =
    data_sent-append es (e ∷ []) ∙ ap (λ l. data_sent es ++ l) h ∙ append-nil (data_sent es)

module _ {S : Type 0} (env : Env S) where
  -- What goes out to the faces in turn.
  abbrev pub deliveries : ℕ → Data → List ℕ → List (ℕ × Data)
  deliveries in_face d [] = []
  deliveries in_face d (f ∷ fs) =
      let rest = deliveries in_face d fs in
      if is_back env in_face f
      then rest
      else if (env.faces f).face_id == 0
      then rest
      else if not (env.faces f).is_local && env.is_localhost d.name
      then rest
      else (f, d) ∷ rest

  pub data_sent-send_all :
      (in_face : ℕ) (d : Data) (fs : List ℕ) (w : World S)
      → data_sent (send_all env in_face d fs w).effects
        ≡ data_sent w.effects ++ deliveries in_face d fs
  unfolding send_all on_outgoing_data data_sent
  data_sent-send_all in_face d [] w = sym (append-nil (data_sent w.effects))
  data_sent-send_all in_face d (f ∷ fs) w =
      data_sent-send_all in_face d fs
        (if is_back env in_face f then w else on_outgoing_data env d f w)
      ∙ go (is_back env in_face f) ((env.faces f).face_id == 0)
          (not (env.faces f).is_local && env.is_localhost d.name)
    where
      go :
          (back invalid violates : Bool)
          → data_sent
                (if back
                  then w
                  else if invalid
                  then w
                  else if violates
                  then w
                  else record (emit env (out_data f d) w) {
                    counters = record w.counters { n_out_data = count_up w.counters.n_out_data };
                  }).effects
              ++ deliveries in_face d fs
            ≡ data_sent w.effects
              ++ (if back
                  then deliveries in_face d fs
                  else if invalid
                  then deliveries in_face d fs
                  else if violates
                  then deliveries in_face d fs
                  else (f, d) ∷ deliveries in_face d fs)
      go true invalid violates = refl
      go false true violates = refl
      go false false true = refl
      go false false false =
          ap (λ l. l ++ deliveries in_face d fs) (data_sent-append w.effects (out_data f d ∷ []))
          ∙ append_assoc (data_sent w.effects) ((f, d) ∷ []) (deliveries in_face d fs)
