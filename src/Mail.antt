-- ===== src/Mail.antt =====
-- nestjs-project/src/mail/mail.service.ts and mail.constants.ts. The mails handed to the mailer
-- are a list, the newest last; whether the mailer accepts a mail is an argument.
use videum_video_platform.Common.{
  Bool, List, [], ◌∷◌, ◌++◌, Text, codes, Action, internal, ok, err, if◌then◌else◌,
}

pub record Mail : Type 0 where
  pub to : Text
  pub subject : Text
  pub template : Text
  -- the template's context
  pub name : Text
  pub url : Text

-- `mailerService.sendMail`
abbrev pub send_mail : Bool → Mail → Action (List Mail) (Unit {0})
send_mail accepted mail outbox =
    if accepted then (ok tt, outbox ++ mail ∷ []) else (err internal, outbox)

-- `MAIL_SUBJECTS` and `MAIL_TEMPLATES`
abbrev pub confirmation_subject : Text
confirmation_subject = codes "Confirm your email — StreamTube"

abbrev pub password_reset_subject : Text
password_reset_subject = codes "Reset your password — StreamTube"

abbrev pub confirmation_template : Text
confirmation_template = codes "confirmation"

abbrev pub password_reset_template : Text
password_reset_template = codes "password-reset"

-- The mail of `sendConfirmationEmail`.
unfoldable pub confirmation_mail : Text → Text → Text → Text → Mail
confirmation_mail app_url email name token = record {
  to = email;
  subject = confirmation_subject;
  template = confirmation_template;
  name = name;
  url = app_url ++ (codes "/auth/confirm-email?token=" ++ token);
}

-- The mail of `sendPasswordResetEmail`.
unfoldable pub password_reset_mail : Text → Text → Text → Text → Mail
password_reset_mail app_url email name token = record {
  to = email;
  subject = password_reset_subject;
  template = password_reset_template;
  name = name;
  url = app_url ++ (codes "/auth/reset-password?token=" ++ token);
}
