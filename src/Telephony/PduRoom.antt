-- ===== src/Telephony/PduRoom.antt =====
-- The room that `smsc_to_pdu` needs (tel_test/ls_telephony_util.cpp).
