-- ===== src/Telephony/Sim.antt =====
-- `handleIccCardStatus` (tel_test/ls_telephony_util.cpp). None is a fault: an access behind an array.
use multi_test.Prelude.{ℕ, zero, suc, true, List, [], ◌∷◌, Option, none, some}
use multi_test.Prelude.Int.{pos_part}
use multi_test.Prelude.Fault.{◌>>=◌}
use multi_test.Telephony.Memory.{Reader, Application, CardStatus, Statics, or_old, copy_over}

module _ {P : Type 0} (r : Reader P) where
  -- One round of `handleIccCardStatus`.
  unfoldable pub read_application : P → Statics → Application → Option (P × Statics × Application)
  read_application p s a = do
    let (app_type, p1) = r.read_int32 p
    let (app_state, p2) = r.read_int32 p1
    let (perso, p3) = r.read_int32 p2
    let (aid, p4) = r.read_string p3
    aid_ptr ← copy_over s.aid_ptr aid
    let (label, p5) = r.read_string p4
    label_ptr ← copy_over s.app_label_ptr label
    let (replaced, p6) = r.read_int32 p5
    let (pin1, p7) = r.read_int32 p6
    let (pin2, p8) = r.read_int32 p7
    some (
      p8,
      record s { aid_ptr = aid_ptr; app_label_ptr = label_ptr },
      record {
        app_type = or_old a.app_type app_type;
        app_state = or_old a.app_state app_state;
        perso_substate = or_old a.perso_substate perso;
        has_aid = true;
        has_label = true;
        pin1_replaced = or_old a.pin1_replaced replaced;
        pin1 = or_old a.pin1 pin1;
        pin2 = or_old a.pin2 pin2;
      },
    )

  -- The loop, by the rounds left, over the entries from the current one on.
  unfoldable pub read_applications :
      ℕ → P → Statics → List Application → Option (P × Statics × List Application)
  unfolding read_application
  read_applications zero p s as' = some (p, s, as')
  read_applications (suc n) p s [] = none
  read_applications (suc n) p s (a ∷ as') = read_application p s a >>= λ (p', s', a').
      read_applications n p' s' as' >>= λ (p'', s'', more). some (p'', s'', a' ∷ more)

  unfoldable pub handle_icc_card_status : P → Statics → CardStatus → Option (CardStatus × Statics)
  unfolding read_applications
  handle_icc_card_status p s c = do
    let (card_state, p1) = r.read_int32 p
    let (pin, p2) = r.read_int32 p1
    let (gsm, p3) = r.read_int32 p2
    let (cdma, p4) = r.read_int32 p3
    let (ims, p5) = r.read_int32 p4
    let (num, p6) = r.read_int32 p5
    let num_applications = or_old c.num_applications num
    (p', s', read) ← read_applications (pos_part num_applications) p6 s c.applications
    some (
      record {
        card_state = or_old c.card_state card_state;
        universal_pin_state = or_old c.universal_pin_state pin;
        gsm_umts_subscription_app_index = or_old c.gsm_umts_subscription_app_index gsm;
        cdma_subscription_app_index = or_old c.cdma_subscription_app_index cdma;
        ims_subscription_app_index = or_old c.ims_subscription_app_index ims;
        num_applications = num_applications;
        applications = read;
      },
      s',
    )
