-- ===== src/Config/Filled.antt =====
-- The settings of nestjs-project/src/config on an environment that the schema of env.validation.ts
-- has filled: the defaults of the two agree.
